-- ===== src/Service/Call/Steady/Gates.antt =====
-- The checks of `GuardService::call` of `src/service.rs` between the body and the scan, and the scan, do not
-- panic.
use tower_guard_rs.Base.{
  ℕ, Text, Option, none, some, List, [], is_empty, and_then, unwrap_or, IsSteady, pure-IsSteady,
  if-IsSteady, map_or-IsSteady, bind-IsSteady, perform-IsSteady, arith, ◌≡◌, refl,
}
use tower_guard_rs.Engine.{Engine, StatusBody, CustomValidatorsVerdict, passed, failed}
use tower_guard_rs.Route.{RouteConfig}
use tower_guard_rs.Layer.{GuardLayer}
use tower_guard_rs.Request.{Parts, RequestFacts, header_pairs}
use tower_guard_rs.Service.Scan.{ScanOutcome, clean, threat}
use tower_guard_rs.Service.Checks.{block_on}
use tower_guard_rs.Service.RouteGates.{
  route_rules, header_of, route_headers_auth, headers_auth_check, block_status_body, route_referrer,
  referrer_check, block_status, block_failed, route_validators, validators_check, route_window,
  time_window_check,
}
use tower_guard_rs.Service.EnginePass.{scan_enabled, verdict_of, detect}
use tower_guard_rs.Service.Call.Steady.{Valid, StatusesValid, StagesValid}
use tower_guard_rs.Service.Call.Steady.Entry.{block_response-IsSteady, failure_response-IsSteady}
use tower_guard_rs.Service.Call.Steady.Middle.{block_on-IsSteady}

module _ (en : Engine) (statuses : StatusesValid en) (layer : GuardLayer en)
    (stages : StagesValid en layer) (facts : RequestFacts en) (parts : Parts en) where
  blocks-IsSteady :
      (o : Option StatusBody)
      → ((a : StatusBody) → o ≡ some a → Valid en a.status)
      → IsSteady (block_on en layer facts parts o)
  blocks-IsSteady = block_on-IsSteady en statuses layer stages facts parts

  route_headers_auth-IsSteady :
      (route : RouteConfig en) → IsSteady (route_headers_auth en layer facts parts route)
  unfolding route_headers_auth
  route_headers_auth-IsSteady route =
      let rules = route_rules en layer facts parts route in
      let verifiers : Option en.AuthVerifier × Option en.AuthVerifier =
        (route.auth_verifier, route.api_key_verifier) in
      let headers = header_of en layer facts parts (header_pairs en parts.headers) in
      if-IsSteady (en.has_rules rules) _ _
        (λ on.
          blocks-IsSteady (en.decide_headers_auth rules verifiers headers)
            (statuses.headers_auth rules verifiers headers))
        (λ off. pure-IsSteady tt)

  pub headers_auth_check-IsSteady :
      (route : Option (RouteConfig en)) → IsSteady (headers_auth_check en layer facts parts route)
  unfolding headers_auth_check
  headers_auth_check-IsSteady route =
      bind-IsSteady _ _
        (map_or-IsSteady route _ _ (pure-IsSteady tt) λ r on. route_headers_auth-IsSteady r)
        λ _. map_or-IsSteady layer.headers_auth _ _ (pure-IsSteady tt) λ stage on.
          perform-IsSteady _ _ λ w. blocks-IsSteady _ (stages.headers_auth stage on _ _ w)

  status_body-IsSteady :
      (block : StatusBody)
      → Valid en block.status
      → IsSteady (block_status_body en layer facts parts block)
  status_body-IsSteady block = block_response-IsSteady en parts layer block.status block.body

  route_referrer-IsSteady :
      (domains : List Text) → IsSteady (route_referrer en layer facts parts domains)
  unfolding route_referrer
  route_referrer-IsSteady domains = record {
    runs = λ w. ground (
      arith,
      (status_body-IsSteady en.referrer_missing statuses.referrer_missing).runs w,
      (status_body-IsSteady en.referrer_invalid statuses.referrer_invalid).runs w,
    );
  }

  pub referrer_check-IsSteady :
      (route : Option (RouteConfig en)) → IsSteady (referrer_check en layer facts parts route)
  unfolding referrer_check
  referrer_check-IsSteady route =
      bind-IsSteady _ _
        (map_or-IsSteady (and_then route (λ (r : RouteConfig en). r.require_referrer)) _ _
          (pure-IsSteady tt) λ domains on. route_referrer-IsSteady domains)
        λ _. map_or-IsSteady layer.referrer_gate _ _ (pure-IsSteady tt) λ stage on.
          perform-IsSteady _ _ λ w. blocks-IsSteady _ (stages.referrer stage on _ _ _ _ _ w)

  pub block_status-IsSteady :
      (status : Option ℕ)
      → Valid en (unwrap_or 200 status)
      → IsSteady (block_status en layer facts parts status)
  block_status-IsSteady status = block_response-IsSteady en parts layer (unwrap_or 200 status) []

  block_failed-IsSteady :
      (verdict : CustomValidatorsVerdict)
      → ((status : ℕ) → verdict ≡ failed (some (some status)) → Valid en status)
      → IsSteady (block_failed en layer facts parts verdict)
  block_failed-IsSteady passed valid = pure-IsSteady tt
  block_failed-IsSteady (failed none) valid = block_status-IsSteady none statuses.own_200
  block_failed-IsSteady (failed (some none)) valid = block_status-IsSteady none statuses.own_200
  block_failed-IsSteady (failed (some (some status))) valid =
      block_status-IsSteady (some status) (valid status refl)

  route_validators-IsSteady :
      (buffered : Option Text) (route : RouteConfig en)
      → IsSteady (route_validators en layer facts parts buffered route)
  unfolding route_validators
  route_validators-IsSteady buffered route =
      if-IsSteady (is_empty route.custom_validators) _ _ (λ on. pure-IsSteady tt)
        λ off. perform-IsSteady _ _ λ w. block_failed-IsSteady _ (statuses.validators _ _ w)

  pub validators_check-IsSteady :
      (route : Option (RouteConfig en)) (buffered : Option Text)
      → IsSteady (validators_check en layer facts parts route buffered)
  unfolding validators_check
  validators_check-IsSteady route buffered =
      bind-IsSteady _ _
        (map_or-IsSteady route _ _ (pure-IsSteady tt) λ r on. route_validators-IsSteady buffered r)
        λ _. map_or-IsSteady layer.custom_checks _ _ (pure-IsSteady tt) λ stage on.
          perform-IsSteady _ _ λ w. map_or-IsSteady _ _ _ (pure-IsSteady tt) λ status there.
            block_status-IsSteady status (stages.validators stage on _ _ _ _ w status there)

  route_window-IsSteady :
      (restrictions : Text → Option Text)
      → IsSteady (route_window en layer facts parts restrictions)
  unfolding route_window
  route_window-IsSteady restrictions = perform-IsSteady _ _ λ w.
      if-IsSteady _ _ _ (λ within. pure-IsSteady tt)
        λ shut. status_body-IsSteady en.time_window_block statuses.time_window

  pub time_window_check-IsSteady :
      (route : Option (RouteConfig en)) → IsSteady (time_window_check en layer facts parts route)
  unfolding time_window_check
  time_window_check-IsSteady route =
      bind-IsSteady _ _
        (map_or-IsSteady (and_then route (λ (r : RouteConfig en). r.time_restrictions)) _ _
          (pure-IsSteady tt) λ window on. route_window-IsSteady window)
        λ _. map_or-IsSteady layer.time_window_gate _ _ (pure-IsSteady tt) λ stage on.
          perform-IsSteady _ _ λ w. blocks-IsSteady _ (stages.time_window stage on _ _ _ _ w)

  verdict_of-IsSteady : (outcome : ScanOutcome) → IsSteady (verdict_of en layer facts parts outcome)
  verdict_of-IsSteady clean = pure-IsSteady none
  verdict_of-IsSteady ScanOutcome.failed = failure_response-IsSteady en parts layer
  verdict_of-IsSteady (threat verdict) = pure-IsSteady (some verdict)

  pub detect-IsSteady :
      (route : Option (RouteConfig en)) (buffered : Option Text)
      → IsSteady (detect en layer facts parts route buffered)
  unfolding detect
  detect-IsSteady route buffered =
      if-IsSteady (scan_enabled en layer facts parts route) _ _ (λ on. verdict_of-IsSteady _)
        (λ off. pure-IsSteady none)
