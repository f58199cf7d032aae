-- ===== src/Service/EnginePass.antt =====
-- The detection verdict and checks 12 to 17 of `GuardService::call` in `src/service.rs`: bans,
-- countries, cloud providers, user agents, rate limits, the detection block and `custom_request`.
pub mod Laws
use tower_guard_rs.Base.{
  ℕ, Text, codes, Bool, true, false, not, ◌&&◌, ◌||◌, Option, none, some, List, [], ◌++◌, is_empty,
  if◌then◌else◌, map_or, map_option, and_then, unwrap_or, from_utf8, Act, Flow, next, stop,
  panicked, pure, perform, effect, ◌>>=◌, ◌>>◌,
}
use tower_guard_rs.Engine.{Engine, IpGateDecision, RequestScanVerdict}
use tower_guard_rs.Engine.Stages.{
  StageResponse, ThreatFinding, RequestObservation, GeoStage, CloudProviderStage, UserAgentStage,
  RateLimitStage, CustomChecksStage,
}
use tower_guard_rs.Route.{RouteConfig, bypassed}
use tower_guard_rs.Layer.{GuardLayer, ObservabilityConfig}
use tower_guard_rs.Request.{Parts, RequestFacts, client_text, request_observation}
use tower_guard_rs.Response.{stage, blocked_message}
use tower_guard_rs.Service.Respond.{
  Handler, answer, block_response, failure_response, threat_finding,
}
use tower_guard_rs.Service.Scan.{ScanOutcome, clean, threat, failed, scan_request}

abbrev pub is_skipped : Option IpGateDecision → Bool
is_skipped none = false
is_skipped (some gate) = gate.is_whitelisted || gate.is_exempt

module _ (en : Engine) (layer : GuardLayer en) (facts : RequestFacts en) (parts : Parts en) where
  -- Whether the scan runs.
  unfoldable pub scan_enabled : Option (RouteConfig en) → Bool
  scan_enabled route = not (
      bypassed en route (codes "penetration")
      || not (
          en.detection_enabled layer.penetration_detection_enabled
            (map_option (λ (r : RouteConfig en). r.enable_suspicious_detection) route)))

  abbrev pub verdict_of : ScanOutcome → Handler en (Option RequestScanVerdict)
  verdict_of clean = pure none
  verdict_of failed = failure_response en parts layer
  verdict_of (threat verdict) = pure (some verdict)

  unfoldable pub detect :
      Option (RouteConfig en) → Option Text → Handler en (Option RequestScanVerdict)
  unfolding scan_enabled
  detect route buffered =
      if scan_enabled route then verdict_of (scan_request en parts buffered layer) else pure none

  -- `return Ok(finish_generated(.., response::stage(&blocked)))`.
  abbrev pub stage_answer : Option StageResponse → Handler en (Unit {0})
  stage_answer none = pure tt
  stage_answer (some blocked) = answer en parts layer (stage en blocked)

  -- `return Ok(block_response(.., answer.status, stage_answer_body(&answer)))`.
  abbrev pub stage_block : Option StageResponse → Handler en (Unit {0})
  stage_block none = pure tt
  stage_block (some blocked) = block_response en parts layer blocked.status blocked.body

  unfoldable pub bans_check : Option (RouteConfig en) → RateLimitStage en → Handler en (Unit {0})
  bans_check route limits = if bypassed en route (codes "ip_ban") then pure tt else (do
    blocked ← perform (limits.decide_bans_observed facts.ip (some (request_observation en parts)))
    stage_answer blocked)

  unfoldable pub geo_check : Option (RouteConfig en) → Bool → Handler en (Unit {0})
  geo_check route skip_global_countries =
      if not (bypassed en route (codes "ip")) && not skip_global_countries
      then map_or (pure tt)
          (λ (geo : GeoStage en). do
            blocked ← perform (geo.decide facts.ip facts.gate)
            stage_block blocked)
          layer.geo_blocking
      else pure tt

  abbrev pub cloud_route : RouteConfig en → Handler en (Unit {0})
  cloud_route route = elim (en.parse_cloud_selectors route.block_cloud_providers) [
    | none ↦ failure_response en parts layer
    | some selectors ↦
        map_or (pure tt)
          (λ (cloud : CloudProviderStage en). do
            blocked ← perform (cloud.decide_route facts.ip facts.gate selectors)
            stage_block blocked)
          layer.cloud_provider
  ]

  abbrev pub cloud_global : Handler en (Unit {0})
  cloud_global =
      map_or (pure tt)
        (λ (cloud : CloudProviderStage en). do
          blocked ← perform (cloud.decide facts.ip facts.gate)
          stage_block blocked)
        layer.cloud_provider

  abbrev pub cloud_dispatch : Option (RouteConfig en) → Handler en (Unit {0})
  cloud_dispatch none = cloud_global
  cloud_dispatch (some route) =
      if is_empty route.block_cloud_providers then cloud_global else cloud_route route

  -- A route's selectors take the place of the global ones; an empty list falls back.
  unfoldable pub cloud_check : Option (RouteConfig en) → Handler en (Unit {0})
  cloud_check route = if bypassed en route (codes "clouds") then pure tt else cloud_dispatch route

  unfoldable pub route_user_agents : Option (RouteConfig en) → Handler en (Unit {0})
  route_user_agents none = pure tt
  route_user_agents (some route) =
      if is_empty route.blocked_user_agents || is_skipped facts.gate
      then pure tt
      else elim (en.from_trusted_patterns route.blocked_user_agents) [
        | none ↦ failure_response en parts layer
        | some filter ↦
            if en.is_blocked filter (unwrap_or [] facts.user_agent)
            then block_response en parts layer 403 (codes "User-Agent not allowed")
            else pure tt
      ]

  unfoldable pub user_agent_check :
      Option (RouteConfig en) → Option ThreatFinding → Handler en (Unit {0})
  user_agent_check route finding = do
    route_user_agents route
    map_or (pure tt)
        (λ (agents : UserAgentStage en). do
          blocked ←
              perform (agents.decide facts.ip facts.gate (some facts.path) facts.user_agent finding)
          stage_block blocked)
        layer.user_agent

  abbrev pub or_extension : Option en.RouteRateLimits → Option en.RouteRateLimits
  or_extension none = parts.route_rate_limits
  or_extension (some tiers) = some tiers

  unfoldable pub apply_tiers :
      Option (RouteConfig en)
      → RateLimitStage en
      → Option ThreatFinding
      → Option en.RouteRateLimits
      → Handler en (Unit {0})
  apply_tiers route limits finding tiers =
      if bypassed en route (codes "rate_limit") then pure tt else (do
        blocked ← perform (
            limits.decide_tiers_observed facts.ip (some facts.path) (or_extension tiers) parts.gate
              finding (some (request_observation en parts)))
        stage_answer blocked)

  -- A route with invalid tiers fails secure.
  unfoldable pub rate_limit_check :
      Option (RouteConfig en) → RateLimitStage en → Option ThreatFinding → Handler en (Unit {0})
  unfolding apply_tiers
  rate_limit_check none limits finding = apply_tiers none limits finding none
  rate_limit_check (some route) limits finding = elim (route.rate_limits) [
    | none ↦ failure_response en parts layer
    | some tiers ↦ apply_tiers (some route) limits finding tiers
  ]

  unfoldable pub fire_detection_hook : RequestScanVerdict → en.World → en.World
  fire_detection_hook verdict w =
      map_or w
        (λ (observability : ObservabilityConfig en).
          let observation = request_observation en parts in
          en.fire_block_hook layer.on_block
            (en.build_block_payload
              (record {
                check = codes "suspicious_activity";
                message = codes "Suspicious activity detected: " ++ facts.ip_string;
                reason = verdict.reason;
                passive = false;
                client_ip = facts.ip_string;
                url = unwrap_or (codes "/") observation.url;
                method = unwrap_or [] observation.method;
                status = some 400;
              })
              observability.sensitive)
            w)
        layer.observability

  -- A detection below the ban threshold: the block shape, but not under passive mode.
  unfoldable pub detection_block :
      RateLimitStage en → Option RequestScanVerdict → Handler en (Unit {0})
  detection_block limits none = pure tt
  detection_block limits (some verdict) = if limits.passive_mode then pure tt else (do
    effect (fire_detection_hook verdict)
    block_response en parts layer 400
        (en.resolve_error_body layer.custom_error_responses 400 blocked_message))

  unfoldable pub custom_request_check : Option Text → Handler en (Unit {0})
  custom_request_check buffered =
      map_or (pure tt)
        (λ (checks : CustomChecksStage en). do
          custom ← perform (
              checks.decide_custom_request facts.method facts.path (client_text en facts)
                (and_then buffered from_utf8))
          map_or (pure tt) (λ status. block_response en parts layer (unwrap_or 200 status) [])
              custom)
        layer.custom_checks
