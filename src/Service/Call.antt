-- ===== src/Service/Call.antt =====
-- `GuardService::call` and `forward` of `src/service.rs`: the checks in the order of the code, then
-- the wrapped service and the response-side pass.
pub mod Cleared
pub mod Reach
pub mod Safety
pub mod Unread
pub mod Sequence
pub mod Fresh
pub mod Transparent
pub mod Answers
pub mod Verdicts
pub mod Threats
pub mod Excluded
pub mod Lenient
pub mod Preflight
pub mod Steady
pub mod Silent
use tower_guard_rs.Base.{
  ℕ, Text, Bool, Option, none, some, List, [], if◌then◌else◌, unwrap_or, contains, Act, Flow, next,
  stop, panicked, pure, perform, expect, ◌>>=◌, ◌>>◌,
}
use tower_guard_rs.Engine.{Engine, RequestScanVerdict}
use tower_guard_rs.Engine.Stages.{RateLimitStage}
use tower_guard_rs.Route.{RouteConfig}
use tower_guard_rs.Layer.{GuardLayer}
use tower_guard_rs.Request.{Parts, RequestFacts, extract}
use tower_guard_rs.Response.{Response, GuardBody, passthrough, map_body}
use tower_guard_rs.Service.Buffer.{Frame}
use tower_guard_rs.Service.Respond.{
  Handler, Reply, ok, err, forwarded, from_facts, apply_response_processor, land, threat_finding,
}
use tower_guard_rs.Service.RouteAccess.{
  preflight, resolve_route, usage_rules, route_ip_access, route_country_access,
}
use tower_guard_rs.Service.Gate.{ip_gate_check}
use tower_guard_rs.Service.Checks.{
  emergency_check, https_check, log_request, log_country_check, buffer_check,
}
use tower_guard_rs.Service.RouteGates.{
  headers_auth_check, referrer_check, validators_check, time_window_check,
}
use tower_guard_rs.Service.EnginePass.{
  detect, bans_check, geo_check, cloud_check, user_agent_check, rate_limit_check, detection_block,
  custom_request_check,
}

module _ (en : Engine) where
  -- What the wrapped service's future resolves to.
  pub data Inner : Type 0 where
    produced : Response en en.InnerBody → Inner
    inner_error : en.InnerError → Inner

  -- The wrapped service: it is given the parts and the rebuilt body.
  abbrev pub Service : Type 0
  Service = Parts en → Text → en.World → Inner × en.World

  -- A request that passed every check: its parts, with the gate's decision, and the buffered body.
  pub record Passed : Type 0 where
    pub parts : Parts en
    pub buffered : Option Text

  module _ (layer : GuardLayer en) where
    unfoldable pub finish_forwarded : RequestFacts en → Inner → en.World → Reply en × en.World
    finish_forwarded facts (inner_error e) w = (err e, w)
    finish_forwarded facts (produced response) w =
        let passed = map_body en passthrough response in
        let (modified, w') =
          apply_response_processor en layer (from_facts en facts) passed.status passed.headers
            forwarded w in
        (ok (land en passed modified), w')

    unfoldable pub forward :
        RequestFacts en → Parts en → Option Text → Service → Handler en (Unit {0})
    unfolding finish_forwarded
    forward facts parts buffered inner w =
        let (result, w1) = inner parts (unwrap_or [] buffered) w in
        let (reply, w2) = finish_forwarded facts result w1 in (stop reply, w2)

    module _ (facts : RequestFacts en) (route : Option (RouteConfig en)) where
      -- The checks in front of the body: what is left is the parts and the country skip flag.
      unfoldable pub admit : Parts en → Handler en (Parts en × Bool)
      admit parts = do
        usage_rules en layer facts parts route
        skip_global_ip_lists ← route_ip_access en layer facts parts route
        skip_global_countries ← route_country_access en layer facts parts route
        gated ← ip_gate_check en layer route skip_global_ip_lists parts
        emergency_check en layer facts gated
        https_check en layer facts gated route
        log_request en layer facts gated
        log_country_check en layer facts gated
        pure (gated, skip_global_countries)

      -- The checks that see the buffered body, up to the scan's verdict.
      unfoldable pub inspect :
          Parts en → List Frame → Handler en (Option Text × Option RequestScanVerdict)
      inspect parts frames = do
        buffered ← buffer_check en layer facts parts route frames
        headers_auth_check en layer facts parts route
        referrer_check en layer facts parts route
        validators_check en layer facts parts route buffered
        time_window_check en layer facts parts route
        verdict ← detect en layer facts parts route buffered
        pure (buffered, verdict)

      -- The stage pass; the layer built the stage, or the `expect` panics.
      unfoldable pub enforce :
          Parts en → Bool → Option Text → Option RequestScanVerdict → Handler en (Unit {0})
      enforce parts skip_global_countries buffered verdict = do
        limits ← expect layer.stage
        bans_check en layer facts parts route limits
        geo_check en layer facts parts route skip_global_countries
        cloud_check en layer facts parts route
        user_agent_check en layer facts parts route (threat_finding verdict)
        rate_limit_check en layer facts parts route limits (threat_finding verdict)
        detection_block en layer facts parts limits verdict
        custom_request_check en layer facts parts buffered

      unfoldable pub screen : Parts en → List Frame → Handler en Passed
      screen parts frames = do
        (gated, skip_global_countries) ← admit parts
        (buffered, verdict) ← inspect gated frames
        enforce gated skip_global_countries buffered verdict
        pure (record { parts = gated; buffered = buffered })

    unfoldable pub guarded :
        RequestFacts en → Service → Parts en → List Frame → Handler en (Unit {0})
    guarded facts inner parts frames = do
      preflight en layer facts parts
      passed ← screen facts (resolve_route en layer facts parts) parts frames
      forward facts passed.parts passed.buffered inner

    unfoldable pub call : Service → Parts en → List Frame → Handler en (Unit {0})
    call inner parts frames =
        let facts = extract en parts in
        if contains layer.exclude_paths facts.path
        then forward facts parts none inner
        else guarded facts inner parts frames
