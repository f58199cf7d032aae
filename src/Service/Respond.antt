-- ===== src/Service/Respond.antt =====
-- The response-side pass of `src/service.rs`: the response processor, the response modifier, and
-- the guard's own answers, which all go through it.
pub mod Laws
use tower_guard_rs.Base.{
  ℕ, Text, codes, Bool, true, false, not, ◌&&◌, Option, none, some, List, [], ◌∷◌, length, any,
  if◌then◌else◌, ◌==◌, text_eq, map_or, map_option, and_then, contains, Act, Flow, next, stop,
  panicked, pure, perform, effect, expect, ◌>>=◌, ◌>>◌,
}
use tower_guard_rs.Http.{status_from_u16}
use tower_guard_rs.Engine.{
  Engine, RequestBits, ResponseBits, RequestScanVerdict, PreflightRequest, PreflightAnswer,
}
use tower_guard_rs.Engine.Stages.{Call, ResponseProcessor, ThreatFinding}
use tower_guard_rs.Layer.{Modified, GuardLayer}
use tower_guard_rs.Request.{Parts, RequestFacts, header_value}
use tower_guard_rs.Response.{
  Response, GuardBody, passthrough, generated, oversize, failure, blocked_with_body, map_body,
}

pub data ResponseLane : Type 0 where
  forwarded generated_lane : ResponseLane

pub record ProcessorInput : Type 0 where
  pub method : Text
  pub url_path : Text
  pub client_ip : Text
  pub origin : Option Text

module _ (en : Engine) where
  -- `Result<Response<GuardBody<B2>>, S::Error>`, what `GuardService::call` resolves to.
  pub data Reply : Type 0 where
    ok : Response en (GuardBody en.InnerBody) → Reply
    err : en.InnerError → Reply

  -- A piece of `call`: it may return a reply early, and it may panic.
  abbrev pub Handler : Type 0 → Type 0
  Handler A = Act en.World Reply A

  unfoldable pub from_facts : RequestFacts en → ProcessorInput
  from_facts facts = record {
    method = facts.method;
    url_path = facts.path;
    client_ip = facts.ip_string;
    origin = facts.origin;
  }

  unfoldable pub from_parts : Parts en → ProcessorInput
  unfolding header_value
  from_parts parts = record {
    method = parts.method;
    url_path = parts.path;
    client_ip = map_or [] en.ip_to_string parts.client_ip;
    origin = header_value en parts.headers (codes "origin");
  }

  abbrev contains_key : Text → List (Text × Text) → Bool
  contains_key key set = any (λ (entry : Text × Text). text_eq entry.0 key) set

  -- The headers-applied event: on the forwarded lane, with an enabled set, over an installed bus.
  emit_headers_applied_event :
      GuardLayer en → ResponseProcessor en → ProcessorInput → ResponseLane → en.World → en.World
  emit_headers_applied_event layer processor input generated_lane w = w
  emit_headers_applied_event layer processor input forwarded w = elim (processor.security_headers) [
    | none ↦ w
    | some config ↦
        if en.headers_enabled config
        then map_or w
            (λ bus.
              let set = en.security_headers config in
              en.send_event bus
                (en.security_headers_applied_event input.url_path (length set)
                  (contains_key (codes "Content-Security-Policy") set)
                  (contains_key (codes "Strict-Transport-Security") set) input.client_ip)
                w)
            layer.events
        else w
  ]

  -- The modifier runs last, on the view itself. After a panic the view is put back to its clone, and the
  -- error hook is told.
  restore :
      GuardLayer en → ProcessorInput → ResponseBits → Modified → en.World → ResponseBits × en.World
  restore layer input unmodified outcome w =
      if outcome.is_err
      then (
        unmodified,
        map_or w
            (λ hook.
              hook (codes "custom_response_modifier")
                (codes "the response modifier panicked; returning unmodified response")
                ((codes "path", input.url_path) ∷ []) w)
            layer.on_error,
      )
      else (outcome.bits, w)

  run_modifier : GuardLayer en → ProcessorInput → ResponseBits → Call en ResponseBits
  unfolding restore
  run_modifier layer input bits w = elim (layer.response_modifier) [
    | none ↦ (bits, w)
    | some modifier ↦ let (outcome, w') = modifier bits w in restore layer input bits outcome w'
  ]

  -- The loop that lands the headers: a pair that is no header is left out.
  abbrev insert_checked :
      en.http.HeaderMap → Option Text → Option en.http.HeaderValue → en.http.HeaderMap
  insert_checked headers (some name) (some value) = en.http.insert headers name value
  insert_checked headers none value = headers
  insert_checked headers (some name) none = headers

  unfoldable pub insert_all : List (Text × Text) → en.http.HeaderMap → en.http.HeaderMap
  insert_all [] headers = headers
  insert_all ((name, value) ∷ rest) headers =
      insert_all rest
        (insert_checked headers (en.http.name_from_str name) (en.http.value_from_str value))

  -- The modified status, and the headers.
  unfoldable pub apply_response_processor :
      GuardLayer en
      → ProcessorInput
      → ℕ
      → en.http.HeaderMap
      → ResponseLane
      → Call en (Option ℕ × en.http.HeaderMap)
  unfolding emit_headers_applied_event run_modifier insert_all
  apply_response_processor layer input status headers lane w = elim (layer.response_processor) [
    | none ↦ ((none, headers), w)
    | some processor ↦
        let request : RequestBits = record {
          method = input.method;
          url_path = input.url_path;
          client_ip = input.client_ip;
          origin = input.origin;
        } in
        let (now, w1) = en.now w in
        let (bits, w2) =
          processor.process request (record { status = status; headers = [] }) now w1 in
        let w3 = emit_headers_applied_event layer processor input lane w2 in
        let (final, w4) = run_modifier layer input bits w3 in
        let modified = if final.status == status then none else some final.status in
        ((modified, insert_all final.headers headers), w4)
  ]

  -- `if let Some(status) = modified && let Ok(code) = from_u16(status) { *status_mut() = code; }`
  unfoldable pub land : {B : Type 0} → Response en B → Option ℕ × en.http.HeaderMap → Response en B
  land response (modified, headers) = record {
    status = map_or response.status (λ code. code) (and_then modified (status_from_u16 en.http));
    headers = headers;
    body = response.body;
  }

  unfoldable pub finish_generated :
      Parts en → GuardLayer en → Response en Text → Call en (Response en (GuardBody en.InnerBody))
  unfolding from_parts apply_response_processor land map_body
  finish_generated parts layer response w =
      let (modified, w') =
        apply_response_processor layer (from_parts parts) response.status response.headers
          generated_lane w in
      (map_body en generated (land response modified), w')

  -- `return Ok(finish_generated(..))`.
  unfoldable pub answer : {A : Type 0} → Parts en → GuardLayer en → Response en Text → Handler A
  unfolding finish_generated
  answer parts layer response w =
      let (r, w') = finish_generated parts layer response w in (stop (ok r), w')

  -- `return Ok(block_response(..))`; the status's `expect` may panic.
  unfoldable pub block_response : {A : Type 0} → Parts en → GuardLayer en → ℕ → Text → Handler A
  unfolding answer blocked_with_body
  block_response parts layer status body w = elim (blocked_with_body en status body) [
    | none ↦ (panicked, w)
    | some response ↦ answer parts layer response w
  ]

  unfoldable pub oversize_response : {A : Type 0} → Parts en → GuardLayer en → Handler A
  unfolding answer oversize
  oversize_response parts layer = answer parts layer (oversize en)

  unfoldable pub failure_response : {A : Type 0} → Parts en → GuardLayer en → Handler A
  unfolding answer failure
  failure_response parts layer = answer parts layer (failure en)

unfoldable pub threat_finding : Option RequestScanVerdict → Option ThreatFinding
threat_finding verdict =
    map_option
      (λ (v : RequestScanVerdict). record {
        is_threat = true;
        categories = v.categories;
        trigger_info = v.reason;
      })
      verdict
