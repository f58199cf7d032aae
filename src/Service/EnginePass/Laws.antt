-- ===== src/Service/EnginePass/Laws.antt =====
-- What a request has shown when the scan, the detection block and the user-agent check of
-- `GuardService::call` let it through.
use tower_guard_rs.Base.{
  Text, true, false, Option, none, some, is_empty, unwrap_or, Flow, next, ◌≡◌, ap, ◌⊎◌, inl, inr,
  refl, arith, ◌>>=◌, through, Bool-cases, Option-cases, codes, [],
}
use tower_guard_rs.Engine.{Engine, RequestScanVerdict}
use tower_guard_rs.Engine.Stages.{RateLimitStage, ThreatFinding}
use tower_guard_rs.Route.{RouteConfig}
use tower_guard_rs.Layer.{GuardLayer}
use tower_guard_rs.Request.{Parts, RequestFacts}
use tower_guard_rs.Service.Scan.{ScanOutcome, clean, threat, failed, scan_request}
use tower_guard_rs.Service.Respond.{Reply}
use tower_guard_rs.Service.Respond.Laws.{block_response-ne-next, failure_response-ne-next}
use tower_guard_rs.Service.EnginePass.{
  scan_enabled, detect, detection_block, verdict_of, is_skipped, route_user_agents,
  user_agent_check,
}

module _ (en : Engine) (layer : GuardLayer en) (facts : RequestFacts en) (parts : Parts en) where
  -- The scan's outcome and the verdict that is handed on.
  abbrev pub Judged : ScanOutcome → Option RequestScanVerdict → Type 0
  Judged clean verdict = verdict ≡ none
  Judged (threat found) verdict = verdict ≡ some found
  Judged failed verdict = ⊥

  verdict_of-Judged :
      (o : ScanOutcome) (w : en.World) {verdict : Option RequestScanVerdict} {v : en.World}
      → verdict_of en layer facts parts o w ≡ (next verdict, v)
      → Judged o verdict
  verdict_of-Judged clean w h = ground arith
  verdict_of-Judged (threat found) w h = ground arith
  verdict_of-Judged failed w {verdict} h =
      failure_response-ne-next en parts layer verdict w (ground arith)

  pub detect-next :
      (route : Option (RouteConfig en)) (buffered : Option Text) (w : en.World)
      {verdict : Option RequestScanVerdict} {v : en.World}
      → detect en layer facts parts route buffered w ≡ (next verdict, v)
      → scan_enabled en layer facts parts route ≡ true
      → Judged (scan_request en parts buffered layer) verdict
  unfolding detect
  detect-next route buffered w h on =
      verdict_of-Judged (scan_request en parts buffered layer) w (rw (on, detect) at h)

  pub detection_block-next :
      (limits : RateLimitStage en) (verdict : Option RequestScanVerdict) (w v : en.World)
      → detection_block en layer facts parts limits verdict w ≡ (next tt, v)
      → (verdict ≡ none) ⊎ (limits.passive_mode ≡ true)
  unfolding detection_block ◌>>=◌
  detection_block-next limits none w v h = inl refl
  detection_block-next limits (some verdict) w v h = elim (Bool-cases (limits.passive_mode)) [
    | inl passive ↦ inr passive
    | inr active ↦ absurd (
        block_response-ne-next en parts layer tt 400 _ _ (
          ap (λ (x : Flow (Reply en) (Unit {0}) × en.World). x.0)
            (rw (active, detection_block) at h)))
  ]

  -- The user agent of the request passes the route's own patterns.
  pub route_user_agents-next :
      (route : RouteConfig en) (w v : en.World)
      → route_user_agents en layer facts parts (some route) w ≡ (next tt, v)
      → is_empty route.blocked_user_agents ≡ false
      → is_skipped facts.gate ≡ false
      → (filter : en.UserAgentFilter) × (en.from_trusted_patterns route.blocked_user_agents
          ≡ some filter)
        × (en.is_blocked filter (unwrap_or [] facts.user_agent) ≡ false)
  unfolding route_user_agents
  route_user_agents-next route w v h listed judged =
      elim (Option-cases (en.from_trusted_patterns route.blocked_user_agents)) [
        | inl invalid ↦ ground (arith, failure_response-ne-next en parts layer tt w)
        | inr (filter, built) ↦ (
          filter,
          built,
          ground (
            arith,
            block_response-ne-next en parts layer tt 403 (codes "User-Agent not allowed") w,
          ),
        )
      ]

  pub user_agent_check-next :
      (route : RouteConfig en) (finding : Option ThreatFinding) (w v : en.World)
      → user_agent_check en layer facts parts (some route) finding w ≡ (next tt, v)
      → is_empty route.blocked_user_agents ≡ false
      → is_skipped facts.gate ≡ false
      → (filter : en.UserAgentFilter) × (en.from_trusted_patterns route.blocked_user_agents
          ≡ some filter)
        × (en.is_blocked filter (unwrap_or [] facts.user_agent) ≡ false)
  unfolding user_agent_check
  user_agent_check-next route finding w v h listed judged =
      through _ _ w h λ _ w1 own _. route_user_agents-next route w w1 own listed judged
