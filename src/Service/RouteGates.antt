-- ===== src/Service/RouteGates.antt =====
-- Checks 6 to 10 of `GuardService::call` in `src/service.rs`: required headers and authentication,
-- the referrer, the custom validators and the time window, each for the route and then the stage.
use tower_guard_rs.Base.{
  ℕ, Text, codes, Option, List, [], find, is_empty, if◌then◌else◌, map_or, map_option, and_then,
  unwrap_or, eq_ignore_ascii_case, from_utf8, pure, perform, ◌>>=◌, ◌>>◌,
}
use mathlib.Core.List.{map}
use tower_guard_rs.Engine.{
  Engine, StatusBody, HeaderAuthRules, CustomValidatorsVerdict, passed, failed, TimeWindow,
  ReferrerVerdict,
}
use tower_guard_rs.Engine.Stages.{
  HeadersAuthStage, ReferrerStage, CustomChecksStage, TimeWindowStage,
}
use tower_guard_rs.Route.{RouteConfig}
use tower_guard_rs.Layer.{GuardLayer}
use tower_guard_rs.Request.{Parts, RequestFacts, header_pairs, client_text}
use tower_guard_rs.Service.Respond.{Handler, block_response}
use tower_guard_rs.Service.Checks.{block_on}

module _ (en : Engine) (layer : GuardLayer en) (facts : RequestFacts en) (parts : Parts en) where
  abbrev pub route_rules : RouteConfig en → HeaderAuthRules
  route_rules route = record {
    required_headers = route.required_headers;
    auth_required = route.auth_required;
    api_key_required = route.api_key_required;
    api_key_header = route.api_key_header;
    authorization_header_required = route.authorization_header_required;
  }

  abbrev pub header_of : List (Text × Text) → Text → Option Text
  header_of pairs name =
      map_option (λ (p : Text × Text). p.1)
        (find (λ (p : Text × Text). eq_ignore_ascii_case p.0 name) pairs)

  unfoldable pub route_headers_auth : RouteConfig en → Handler en (Unit {0})
  route_headers_auth route =
      if en.has_rules (route_rules route)
      then block_on en layer facts parts (
          en.decide_headers_auth (route_rules route) (route.auth_verifier, route.api_key_verifier)
            (header_of (header_pairs en parts.headers)))
      else pure tt

  unfoldable pub headers_auth_check : Option (RouteConfig en) → Handler en (Unit {0})
  unfolding route_headers_auth
  headers_auth_check route = do
    map_or (pure tt) route_headers_auth route
    map_or (pure tt)
        (λ (stage : HeadersAuthStage en). do
          answer ← perform (stage.decide facts.path (header_pairs en parts.headers))
          block_on en layer facts parts answer)
        layer.headers_auth

  abbrev pub block_status_body : StatusBody → Handler en (Unit {0})
  block_status_body block = block_response en parts layer block.status block.body

  unfoldable pub route_referrer : List Text → Handler en (Unit {0})
  route_referrer domains = elim (en.decide_referrer facts.referer domains) [
    | ReferrerVerdict.allowed ↦ pure tt
    | ReferrerVerdict.missing ↦ block_status_body en.referrer_missing
    | ReferrerVerdict.invalid ↦ block_status_body en.referrer_invalid
  ]

  unfoldable pub referrer_check : Option (RouteConfig en) → Handler en (Unit {0})
  unfolding route_referrer
  referrer_check route = do
    map_or (pure tt) route_referrer (and_then route (λ (r : RouteConfig en). r.require_referrer))
    map_or (pure tt)
        (λ (stage : ReferrerStage en). do
          answer ←
              perform
                (stage.decide facts.path facts.referer facts.ip_string facts.path facts.method)
          block_on en layer facts parts answer)
        layer.referrer_gate

  -- A buffered body is shown to the custom checks where it is UTF-8.
  abbrev pub body_text : Option Text → Option Text
  body_text buffered = and_then buffered from_utf8

  -- A failed validator answers its status, or 200, with an empty body.
  abbrev pub block_status : Option ℕ → Handler en (Unit {0})
  block_status status = block_response en parts layer (unwrap_or 200 status) []

  abbrev pub block_failed : CustomValidatorsVerdict → Handler en (Unit {0})
  block_failed passed = pure tt
  block_failed (failed block) = block_status (and_then block (λ status. status))

  unfoldable pub route_validators : Option Text → RouteConfig en → Handler en (Unit {0})
  route_validators buffered route = if is_empty route.custom_validators then pure tt else (do
    verdict ← perform (
        en.decide_custom_validators
          (map (λ validator. (en.anonymous_name, validator)) route.custom_validators)
          (record {
            method = facts.method;
            path = facts.path;
            client_ip = client_text en facts;
            body = body_text buffered;
          }))
    block_failed verdict)

  unfoldable pub validators_check : Option (RouteConfig en) → Option Text → Handler en (Unit {0})
  unfolding route_validators
  validators_check route buffered = do
    map_or (pure tt) (route_validators buffered) route
    map_or (pure tt)
        (λ (stage : CustomChecksStage en). do
          failure ← perform (
              stage.decide_custom_validators facts.path facts.method (client_text en facts)
                (body_text buffered))
          map_or (pure tt) block_status failure)
        layer.custom_checks

  unfoldable pub route_window : (Text → Option Text) → Handler en (Unit {0})
  route_window restrictions =
      let window : TimeWindow = record {
        start = restrictions (codes "start");
        stop = restrictions (codes "end");
        timezone = restrictions (codes "timezone");
      } in
      do
        now ← perform en.now
        if en.is_within window (en.hhmm_in_zone now window.timezone)
            then pure tt
            else block_status_body en.time_window_block

  unfoldable pub time_window_check : Option (RouteConfig en) → Handler en (Unit {0})
  unfolding route_window
  time_window_check route = do
    map_or (pure tt) route_window (and_then route (λ (r : RouteConfig en). r.time_restrictions))
    map_or (pure tt)
        (λ (stage : TimeWindowStage en). do
          answer ← perform (stage.decide facts.path facts.ip_string facts.path facts.method)
          block_on en layer facts parts answer)
        layer.time_window_gate
