-- ===== src/Service/Call/Fresh.antt =====
-- The checks of `GuardService::call` of `src/service.rs`, one by one, for a layer as `GuardLayer::new` of
-- `src/lib.rs` makes it and a clean request.
use tower_guard_rs.Base.{
  ℕ, ◌≤◌, Text, codes, false, Option, none, some, List, length, eq_ignore_ascii_case, next, expect,
  ◌>>=◌, bind-next, Bool-cases, inl, inr, ◌≡◌, refl, ◌∙◌, arith,
}
use tower_guard_rs.Engine.{Engine, IpGateDecision, RequestSurfaces, RequestScanVerdict}
use tower_guard_rs.Engine.Stages.{RateLimitStage, RequestObservation, ThreatFinding}
use tower_guard_rs.Route.{bypassed}
use tower_guard_rs.Layer.{GuardLayer, DetectConfig}
use tower_guard_rs.Layer.Build.{StageBuilder, ScanFn, new, build_stage, layered}
use tower_guard_rs.Request.{Parts, RequestFacts, request_observation}
use tower_guard_rs.Service.Buffer.{Frame, buffer_body, whole, non_empty}
use tower_guard_rs.Service.Buffer.Laws.{readable, has_error, buffer_body_lem}
use tower_guard_rs.Service.Scan.{surfaces, judge, clean, scan_request}
use tower_guard_rs.Service.Respond.{threat_finding, Reply}
use tower_guard_rs.Service.RouteAccess.{
  preflight, usage_rules, route_ip_access, route_country_access,
}
use tower_guard_rs.Service.Gate.{ip_gate_check, enforce_ip_gate}
use tower_guard_rs.Service.Checks.{
  emergency_check, https_check, log_request, log_country_check, buffer_check, body_cap,
}
use tower_guard_rs.Service.RouteGates.{
  headers_auth_check, referrer_check, validators_check, time_window_check,
}
use tower_guard_rs.Service.EnginePass.{
  scan_enabled, detect, bans_check, geo_check, cloud_check, route_user_agents, user_agent_check,
  rate_limit_check, apply_tiers, detection_block, custom_request_check,
}
use tower_guard_rs.Service.Call.{admit, inspect, enforce, screen}

module _ (en : Engine) where
  -- A stage that, asked with the finding, blocks nobody and leaves the world alone.
  pub record IsOpen (finding : Option ThreatFinding) (limits : RateLimitStage en) : Type 0 where
    pub bans :
        (ip : Option en.Ip) (o : Option RequestObservation) (w : en.World)
        → limits.decide_bans_observed ip o w ≡ (none, w)
    pub tiers :
        (ip : Option en.Ip) (path : Option Text) (t : Option en.RouteRateLimits)
        (g : Option IpGateDecision) (o : Option RequestObservation) (w : en.World)
        → limits.decide_tiers_observed ip path t g finding o w ≡ (none, w)

  -- A scan that neither panics nor finds a threat.
  abbrev pub IsClean : ScanFn en → Type 0
  IsClean scan =
      (s : RequestSurfaces) (r : en.ResolvedExclusions) (c : DetectConfig en)
      → (verdict : RequestScanVerdict) × (scan s r c ≡ some verdict) × (verdict.is_threat ≡ false)

  module _ (scan : ScanFn en) (config : DetectConfig en) (builder : StageBuilder en) where
    abbrev pub fresh : GuardLayer en
    fresh = layered en (new en scan config) builder

    abbrev pub limits_of : RateLimitStage en
    limits_of = build_stage en (new en scan config) builder

    module _ (facts : RequestFacts en) (parts : Parts en) (w : en.World) where
      pub preflight-fresh : preflight en fresh facts parts w ≡ (next tt, w)
      unfolding preflight layered new
      preflight-fresh = elim (Bool-cases (eq_ignore_ascii_case facts.method (codes "OPTIONS"))) [
        | inl options ↦ rw options refl
        | inr other ↦ rw other refl
      ]

      pub admit-fresh : admit en fresh facts none parts w ≡ (next (parts, false), w)
      unfolding admit layered new usage_rules route_ip_access route_country_access ip_gate_check
          enforce_ip_gate emergency_check https_check log_request log_country_check bypassed ◌>>=◌
      admit-fresh = refl

      pub scan_request-fresh :
          (buffered : Option Text) → IsClean scan → scan_request en parts buffered fresh ≡ clean
      unfolding scan_request judge layered new surfaces
      scan_request-fresh buffered clean_scan =
          let (verdict, found, harmless) =
            clean_scan (surfaces en parts buffered)
              (en.resolve_exclusions none parts.route_exclusions) config in
          rw (found, harmless) refl

      detect-fresh :
          (buffered : Option Text)
          → IsClean scan
          → detect en fresh facts parts none buffered w ≡ (next none, w)
      unfolding detect
      detect-fresh buffered clean_scan =
          elim (Bool-cases (scan_enabled en fresh facts parts none)) [
            | inl on ↦ rw (on, scan_request-fresh buffered clean_scan) refl
            | inr off ↦ rw off refl
          ]

      pub buffer_body-whole :
          (frames : List Frame) (cap : ℕ)
          → length (readable frames) ≤ cap
          → has_error frames ≡ false
          → buffer_body frames cap ≡ whole (non_empty (readable frames))
      buffer_body-whole frames cap bound sound =
          rw (buffer_body_lem frames cap, sound) (ground arith)

      pub buffer_check-fresh :
          (frames : List Frame)
          → length (readable frames) ≤ config.max_full_scan_bytes
          → has_error frames ≡ false
          → buffer_check en fresh facts parts none frames w
            ≡ (next (non_empty (readable frames)), w)
      unfolding buffer_check body_cap layered new
      buffer_check-fresh frames bound sound =
          rw (buffer_body-whole frames config.max_full_scan_bytes bound sound) refl

      inspect-fresh :
          (frames : List Frame)
          → IsClean scan
          → length (readable frames) ≤ config.max_full_scan_bytes
          → has_error frames ≡ false
          → inspect en fresh facts none parts frames w
            ≡ (next (non_empty (readable frames), none), w)
      unfolding inspect layered new headers_auth_check referrer_check validators_check
          time_window_check ◌>>=◌
      inspect-fresh frames clean_scan bound sound =
          rw (buffer_check-fresh frames bound sound, detect-fresh _ clean_scan) refl

      pub expect-fresh : expect {R = Reply en} fresh.stage w ≡ (next limits_of, w)
      unfolding layered new
      expect-fresh = refl

      pub bans-fresh :
          {finding : Option ThreatFinding}
          → IsOpen finding limits_of
          → bans_check en fresh facts parts none limits_of w ≡ (next tt, w)
      unfolding bans_check bypassed ◌>>=◌
      bans-fresh opened = rw (opened.bans) (
          let kept = opened.bans facts.ip (some (request_observation en parts)) w in
          λ i. (next tt, (kept i).1))

      pub rate_limit-fresh :
          (finding : Option ThreatFinding)
          → IsOpen finding limits_of
          → rate_limit_check en fresh facts parts none limits_of finding w ≡ (next tt, w)
      unfolding rate_limit_check apply_tiers bypassed ◌>>=◌
      rate_limit-fresh finding opened = rw (opened.tiers) (
          let kept =
            opened.tiers facts.ip (some facts.path) parts.route_rate_limits parts.gate
              (some (request_observation en parts)) w in
          λ i. (next tt, (kept i).1))

      -- The checks that a fresh layer has no stage for.
      pub absent-fresh :
          (finding : Option ThreatFinding) (buffered : Option Text)
          → (geo_check en fresh facts parts none false w ≡ (next tt, w))
            × (cloud_check en fresh facts parts none w ≡ (next tt, w))
            × (user_agent_check en fresh facts parts none finding w ≡ (next tt, w))
            × (detection_block en fresh facts parts limits_of none w ≡ (next tt, w))
            × (custom_request_check en fresh facts parts buffered w ≡ (next tt, w))
      unfolding layered new geo_check cloud_check user_agent_check route_user_agents detection_block
          custom_request_check bypassed ◌>>=◌
      absent-fresh finding buffered = (refl, refl, refl, refl, refl)

      enforce-fresh :
          (buffered : Option Text)
          → IsOpen none limits_of
          → enforce en fresh facts none parts false buffered none w ≡ (next tt, w)
      unfolding enforce threat_finding
      enforce-fresh buffered opened =
          let (geo, clouds, agents, block, custom) = absent-fresh (threat_finding none) buffered in
          bind-next _ _ w expect-fresh
          ∙ (bind-next _ _ w (bans-fresh opened)
              ∙ (bind-next _ _ w geo
                  ∙ (bind-next _ _ w clouds
                      ∙ (bind-next _ _ w agents
                          ∙ (bind-next _ _ w (rate_limit-fresh (threat_finding none) opened)
                              ∙ (bind-next _ _ w block ∙ custom))))))

      pub screen-fresh :
          (frames : List Frame)
          → IsClean scan
          → IsOpen none limits_of
          → length (readable frames) ≤ config.max_full_scan_bytes
          → has_error frames ≡ false
          → screen en fresh facts none parts frames w
            ≡ (next (record { parts = parts; buffered = non_empty (readable frames) }), w)
      unfolding screen
      screen-fresh frames clean_scan opened bound sound =
          bind-next _ _ w admit-fresh
          ∙ (bind-next _ _ w (inspect-fresh frames clean_scan bound sound)
              ∙ bind-next _ _ w (enforce-fresh (non_empty (readable frames)) opened))
