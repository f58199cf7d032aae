-- ===== src/Lib.antt =====
-- tower-guard-rs: a tower middleware that screens HTTP requests with a detection engine.
--
-- The program. A `GuardLayer` (src/lib.rs) holds the configuration and the engine's prebuilt stages. Its
-- `layer` builds the rate-limit stage and wraps a service in a `GuardService` (src/service.rs). The
-- service's `call` takes a request apart, extracts its facts (src/stages.rs), and runs the checks in the
-- order of the reference pipeline. A check that blocks answers with a response of the guard's own
-- (src/response.rs, with the body type of src/body.rs); a request that passes all of them goes to the
-- wrapped service with its buffered body. Both kinds of answer go through the response processor and the
-- response modifier. The same stages can stand alone, one layer each (src/stages.rs), and src/status.rs
-- serves a readiness document.
--
-- The files, by the part of the program:
--   Http              the `http` crate, a parameter: header maps, header values, status codes
--   Engine            guard_core_engine and guard_core_rs, a parameter, with the stages' methods in
--                     Engine/Stages
--   Route             the per-route carrier and the closure `bypassed` of `GuardService::call`
--   Layer             src/lib.rs: the fields of `GuardLayer`; Layer/Builders its `with_*` methods; Layer/Build
--                     `new`, `build_stage`, `rate_limit_stage`, `Layer::layer` (`layered`), `reset`;
--                     Layer/Config `from_security_config`, `GuardConfigError` and `map_log_level`
--   Request           src/stages.rs: `RequestFacts::extract` and its helpers; Request/Host the function
--                     `host_of_authority`, which src/service.rs has too
--   Response          src/response.rs; Response/Body src/body.rs
--   Service           src/service.rs, below
--   Stages            src/stages.rs: `Decides`, `render_verdict`, `pass_gate`, `provided_layers`;
--                     Stages/Service the service that `Layer::layer` makes of a stage
--   Status            src/status.rs: `payload`, `json_string` and the builders; Status/Service its
--                     response and service, Status/Row and Status/Document a reader of the document
--   Examples          examples/simple_app and examples/advanced_app: the routers, their guards and the
--                     configuration from the environment; Examples/Serving the body type and the
--                     readiness that both have
--   Tests             a concrete engine and runs of the theorems
-- and src/service.rs by its functions:
--   Service/Buffer       `buffer_body`
--   Service/Query        `decode_query_component` and the query pairs of `scan_views`;
--                        Service/Query/Loop the loop by an index, as it is written
--   Service/Scan         `scan_request`, `scan_views`, `is_excluded_header`
--   Service/Respond      `apply_response_processor`, `finish_generated`, `block_response`
--   Service/RouteAccess  `call`, from the CORS preflight to the route's country lists
--   Service/Gate         `enforce_ip_gate`
--   Service/Checks       `call`, from emergency mode to the body cap
--   Service/RouteGates   `call`, from the required headers to the time window
--   Service/EnginePass   `call`, from the scan's verdict to `custom_request`
--   Service/Call         `call` and `forward`, composed of these; Service/Call/Lenient requests that
--                        one check ends, or none, under any layer, Service/Call/Steady the panics of
--                        `call` and what rules them out, Service/Call/Silent the stages that had no
--                        answer where it went on, Service/Call/Fresh requests under a layer
--                        without checks, Service/Call/Sequence one request after another
--   Service/Handle       `GuardService` with its readiness and its maintenance
--
-- How the code is modelled. `call` is a handler over a world (Base/Flows): a check goes on, returns a
-- reply early, or panics, and each effect of the engine is a change of the world. `expect` is a panic
-- where there is no value. An `await` is a call that returns, so one request is a sequence of steps. A
-- scan that panics under `catch_unwind` gives `none`; a response modifier gives its view as it stands then, with
-- a flag. Texts are lists of bytes, and a search for
-- an ASCII character is a search for its byte. A body is the list of the frames that its stream gives.
-- A `StatusCode` is its number. Fuel stands in three places: that of `decimal` is one more than the
-- number, which has no more digits than that; that of `decode_loop` one more than the bytes, of which each
-- round takes one or three; and that of `read_rows` is more than the characters, and so than the rows. The lengths of a body are natural numbers: they do not reach the word size.
--
-- What is a parameter. The engine's decisions, stores, clocks and events are the fields of `Engine`, with
-- one law, that an unrestricted route verdict is no denial. The `http` crate's laws are that an inserted
-- header is read back, and that the constants 413, 500 and the plain-text content type are valid. The
-- engine's builder of the rate-limit stage is a `StageBuilder`, with the laws that it gives a stage, on which
-- `expect` then does not panic, and that the stage keeps the mode that it was configured with. What the status document reads of the engine is a `Providers`, and what
-- `from_security_config` calls of it a `Constructors`, without a law. `http_body_util::Full` is a `Body`
-- that keeps to `IsFull`, and `collect` of the same crate a reader that keeps to `Collects`.
--
-- What is not modelled: Debug and Clone implementations, `Error::source`, the socket loops of
-- the examples, and the tests.
pub mod Base
pub mod Http
pub mod Engine
pub mod Route
pub mod Layer
pub mod Request
pub mod Response
pub mod Service
pub mod Stages
pub mod Status
pub mod Examples
mod Tests
