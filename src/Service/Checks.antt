-- ===== src/Service/Checks.antt =====
-- Checks 2 to 5 of `GuardService::call` in `src/service.rs`: emergency mode, HTTPS enforcement, the
-- two log lines and the body buffer.
pub mod Laws
use tower_guard_rs.Base.{
  ℕ, Text, codes, Bool, true, false, not, ◌&&◌, Option, none, some, if◌then◌else◌, leb, text_eq,
  map_or, map_option, and_then, unwrap_or, List, Act, Flow, next, stop, panicked, pure, perform,
  effect, expect, ◌>>=◌, ◌>>◌,
}
use tower_guard_rs.Engine.{Engine, StatusBody}
use tower_guard_rs.Engine.Stages.{
  Call, HttpsRedirectAnswer, EmergencyModeStage, HttpsEnforcementStage, RequestLoggingStage,
  GeoStage,
}
use tower_guard_rs.Route.{RouteConfig}
use tower_guard_rs.Layer.{GuardLayer, ObservabilityConfig}
use tower_guard_rs.Request.{Parts, RequestFacts, https_url, client_text}
use tower_guard_rs.Request.Host.{host_of_authority}
use tower_guard_rs.Response.{redirect}
use tower_guard_rs.Service.Buffer.{Frame, Buffering, whole, failed, too_large, read, buffer_body}
use tower_guard_rs.Service.Respond.{
  Handler, answer, block_response, oversize_response, failure_response,
}

module _ (en : Engine) (layer : GuardLayer en) (facts : RequestFacts en) (parts : Parts en) where
  -- `if let Some(answer) = .. { return Ok(block_response(.., answer.status, &answer.body)); }`
  unfoldable pub block_on : Option StatusBody → Handler en (Unit {0})
  block_on none = pure tt
  block_on (some answer) = block_response en parts layer answer.status answer.body

  unfoldable pub emergency_check : Handler en (Unit {0})
  emergency_check = elim (layer.emergency_mode) [
    | none ↦ pure tt
    | some stage ↦ do
      answer ← perform (stage.decide (client_text en facts) facts.ip_string facts.path facts.method)
      block_on answer
  ]

  abbrev pub stage_redirect :
      Option (RouteConfig en) → HttpsEnforcementStage en → Call en (Option HttpsRedirectAnswer)
  stage_redirect none stage =
      stage.decide facts.path facts.scheme (map_option host_of_authority facts.host)
        facts.x_forwarded_proto (https_url en facts)
  stage_redirect (some route) stage =
      stage.decide_route facts.path facts.scheme (map_option host_of_authority facts.host)
        facts.x_forwarded_proto (https_url en facts) (some route.require_https)

  -- With no stage installed the route's own `require_https` redirects.
  abbrev pub route_redirect : Option (RouteConfig en) → Option HttpsRedirectAnswer
  route_redirect route =
      if map_or false (λ (r : RouteConfig en). r.require_https) route
        && not (text_eq facts.scheme (codes "https"))
        && not layer.passive_mode
      then some (record { status = 301; location = https_url en facts })
      else none

  abbrev pub redirect_on : Option HttpsRedirectAnswer → Handler en (Unit {0})
  redirect_on none = pure tt
  redirect_on (some target) = do
    response ← expect (redirect en target)
    answer en parts layer response

  unfoldable pub https_check : Option (RouteConfig en) → Handler en (Unit {0})
  https_check route = elim (layer.https_enforcement) [
    | none ↦ redirect_on (route_redirect route)
    | some stage ↦ do target ← perform (stage_redirect route stage); redirect_on target
  ]

  -- The composed line is the host's to emit.
  unfoldable pub log_request : Handler en (Unit {0})
  log_request =
      map_or (pure tt)
        (λ (stage : RequestLoggingStage en).
          effect (stage.compose (client_text en facts) (some facts.method) (some facts.path)))
        layer.request_logging

  abbrev country_line :
      Option (ObservabilityConfig en) → Option (GeoStage en) → Handler en (Unit {0})
  country_line (some observability) (some stage) = effect (
      stage.country_check_log facts.ip observability.log_suspicious_level
        observability.log_country_check_level)
  country_line (some observability) none = pure tt
  country_line none stage = pure tt

  unfoldable pub log_country_check : Handler en (Unit {0})
  log_country_check = country_line layer.observability layer.geo_blocking

  -- `usize::try_from(size).ok()`.
  abbrev as_usize : ℕ → Option ℕ
  as_usize size = if leb size en.usize_max then some size else none

  -- The route's limit takes the place of the layer's.
  unfoldable pub body_cap : Option (RouteConfig en) → ℕ
  body_cap route =
      unwrap_or layer.body_cap
        (and_then (and_then route (λ (r : RouteConfig en). r.max_request_size)) as_usize)

  abbrev pub after_buffering : Buffering → Handler en (Option Text)
  after_buffering (whole buffered) = pure buffered
  after_buffering (failed too_large) = oversize_response en parts layer
  after_buffering (failed read) = failure_response en parts layer

  unfoldable pub buffer_check : Option (RouteConfig en) → List Frame → Handler en (Option Text)
  buffer_check route frames = after_buffering (buffer_body frames (body_cap route))
