-- ===== src/Service/Call/Lenient/Enforced.antt =====
-- The stage pass of `GuardService::call` of `src/service.rs`, for a request that no stage has an answer for.
use tower_guard_rs.Base.{
  Text, codes, true, false, Option, none, some, List, expect, Goes, pure-Goes, perform-Goes,
  effect-Goes, bind-Goes, map_or-Goes, Bool-cases, Option-cases, ◌≡◌, inl, inr, refl, subst,
}
use tower_guard_rs.Engine.{Engine, RequestScanVerdict}
use tower_guard_rs.Engine.Stages.{RateLimitStage, ThreatFinding, StageResponse, RequestObservation}
use tower_guard_rs.Route.{RouteConfig, bypassed}
use tower_guard_rs.Layer.{GuardLayer}
use tower_guard_rs.Request.{Parts, RequestFacts}
use tower_guard_rs.Service.Buffer.{Frame, non_empty}
use tower_guard_rs.Service.Buffer.Laws.{readable}
use tower_guard_rs.Service.Respond.{Reply, threat_finding}
use tower_guard_rs.Service.EnginePass.{
  bans_check, geo_check, cloud_dispatch, cloud_global, cloud_check, route_user_agents,
  user_agent_check, apply_tiers, rate_limit_check, detection_block, custom_request_check,
}
use tower_guard_rs.Service.Call.{enforce}
use tower_guard_rs.Service.Call.Lenient.{IsUnruled, Enforces, CustomPasses}
use tower_guard_rs.Service.Call.Lenient.Inspected.{Tolerated}
use tower_guard_rs.Service.Call.Lenient.Answers.{
  Answers, answer-Answers, bind-Answers, then-Answers, block_response-Answers,
}
use tower_guard_rs.Response.{Response, stage, plain_text, blocked_message}

module _ (en : Engine) (layer : GuardLayer en) where
  -- The answer to a detection.
  abbrev pub blocked_400 : Response en Text
  blocked_400 =
      plain_text en 400 (en.resolve_error_body layer.custom_error_responses 400 blocked_message)

module _ (en : Engine) (layer : GuardLayer en) (facts : RequestFacts en) (parts : Parts en)
    (route : Option (RouteConfig en)) (limits : RateLimitStage en) where
  expect-Goes :
      layer.stage ≡ some limits → Goes {W = en.World} {R = Reply en} (expect layer.stage) limits
  expect-Goes installed = rw installed (pure-Goes limits)

  bans_check-Answers :
      (blocked : StageResponse)
      → bypassed en route (codes "ip_ban") ≡ false
      → ((o : Option RequestObservation) (w : en.World)
          → (limits.decide_bans_observed facts.ip o w).0 ≡ some blocked)
      → Answers en parts layer (bans_check en layer facts parts route limits) (stage en blocked)
  unfolding bans_check
  bans_check-Answers blocked kept banned =
      rw (kept, bans_check)
        (then-Answers en parts layer _ _ (some blocked) _
          (perform-Goes _ (some blocked) λ w. banned _ w)
          (answer-Answers en parts layer (stage en blocked)))

  -- A ban is answered in front of the other stages, whatever the scan has found.
  pub enforce-banned :
      (buffered : Option Text) (verdict : Option RequestScanVerdict) (blocked : StageResponse)
      → layer.stage ≡ some limits
      → bypassed en route (codes "ip_ban") ≡ false
      → ((o : Option RequestObservation) (w : en.World)
          → (limits.decide_bans_observed facts.ip o w).0 ≡ some blocked)
      → Answers en parts layer
          (enforce en layer facts route parts false buffered verdict)
          (stage en blocked)
  unfolding enforce
  enforce-banned buffered verdict blocked installed kept banned =
      then-Answers en parts layer _ _ limits _ (expect-Goes installed)
        (bind-Answers en parts layer _ _ _ (bans_check-Answers blocked kept banned))

  module _ (plain : IsUnruled en layer facts parts route)
      (h : Enforces en layer facts parts route limits) where
    bans_check-Goes : Goes (bans_check en layer facts parts route limits) tt
    unfolding bans_check
    bans_check-Goes = elim (Bool-cases (bypassed en route (codes "ip_ban"))) [
      | inl skipped ↦ rw (skipped, bans_check) (pure-Goes tt)
      | inr kept ↦
          rw (kept, bans_check)
            (bind-Goes _ _ none tt (perform-Goes _ none λ w. h.bans _ w kept) (pure-Goes tt))
    ]

    geo_check-Goes : Goes (geo_check en layer facts parts route false) tt
    unfolding geo_check
    geo_check-Goes = elim (Bool-cases (bypassed en route (codes "ip"))) [
      | inl skipped ↦ rw (skipped, geo_check) (pure-Goes tt)
      | inr kept ↦
          rw (kept, geo_check)
            (map_or-Goes layer.geo_blocking _ _ tt (pure-Goes tt) λ installed_stage on.
              bind-Goes _ _ none tt (perform-Goes _ none λ w. h.geo installed_stage w kept on)
                (pure-Goes tt))
    ]

    cloud_global-Goes :
        bypassed en route (codes "clouds") ≡ false → Goes (cloud_global en layer facts parts) tt
    cloud_global-Goes kept =
        map_or-Goes layer.cloud_provider _ _ tt (pure-Goes tt) λ installed_stage on.
          bind-Goes _ _ none tt (perform-Goes _ none λ w. h.cloud installed_stage w kept on)
            (pure-Goes tt)

    cloud_dispatch-Goes :
        (o : Option (RouteConfig en))
        → route ≡ o
        → bypassed en route (codes "clouds") ≡ false
        → Goes (cloud_dispatch en layer facts parts o) tt
    cloud_dispatch-Goes none e kept = cloud_global-Goes kept
    cloud_dispatch-Goes (some r) e kept = rw ((plain r e).clouds) (cloud_global-Goes kept)

    cloud_check-Goes : Goes (cloud_check en layer facts parts route) tt
    unfolding cloud_check
    cloud_check-Goes = elim (Bool-cases (bypassed en route (codes "clouds"))) [
      | inl skipped ↦ rw (skipped, cloud_check) (pure-Goes tt)
      | inr kept ↦ rw (kept, cloud_check) (cloud_dispatch-Goes route refl kept)
    ]

    route_user_agents-Goes :
        (o : Option (RouteConfig en))
        → route ≡ o
        → Goes (route_user_agents en layer facts parts o) tt
    unfolding route_user_agents
    route_user_agents-Goes none e = pure-Goes tt
    route_user_agents-Goes (some r) e = rw ((plain r e).agents, route_user_agents) (pure-Goes tt)

    user_agent_check-Goes :
        (finding : Option ThreatFinding)
        → Goes (user_agent_check en layer facts parts route finding) tt
    unfolding user_agent_check
    user_agent_check-Goes finding = bind-Goes _ _ tt tt (route_user_agents-Goes route refl) (
        map_or-Goes layer.user_agent _ _ tt (pure-Goes tt) λ installed_stage on.
          bind-Goes _ _ none tt (perform-Goes _ none λ w. h.agents installed_stage finding w on)
            (pure-Goes tt))

    apply_tiers-Goes :
        (finding : Option ThreatFinding) (tiers : Option en.RouteRateLimits)
        → Goes (apply_tiers en layer facts parts route limits finding tiers) tt
    unfolding apply_tiers
    apply_tiers-Goes finding tiers = elim (Bool-cases (bypassed en route (codes "rate_limit"))) [
      | inl skipped ↦ rw (skipped, apply_tiers) (pure-Goes tt)
      | inr kept ↦
          rw (kept, apply_tiers)
            (bind-Goes _ _ none tt (perform-Goes _ none λ w. h.tiers _ _ finding _ w kept)
              (pure-Goes tt))
    ]

    detection_block-Goes :
        (verdict : Option RequestScanVerdict)
        → Tolerated en layer facts parts route limits verdict
        → Goes (detection_block en layer facts parts limits verdict) tt
    unfolding detection_block
    detection_block-Goes none ok = pure-Goes tt
    detection_block-Goes (some verdict) (inl e) = cc
    detection_block-Goes (some verdict) (inr passive) = rw (passive, detection_block) (pure-Goes tt)

    custom_request_check-Goes :
        (frames : List Frame)
        → CustomPasses en layer facts parts route frames
        → Goes (custom_request_check en layer facts parts (non_empty (readable frames))) tt
    unfolding custom_request_check
    custom_request_check-Goes frames passes =
        map_or-Goes layer.custom_checks _ _ tt (pure-Goes tt) λ installed_stage on.
          bind-Goes _ _ none tt (perform-Goes _ none λ w. passes installed_stage w on)
            (pure-Goes tt)

    rate_limit_check-Goes :
        (finding : Option ThreatFinding) (o : Option (RouteConfig en))
        → route ≡ o
        → Goes (rate_limit_check en layer facts parts o limits finding) tt
    unfolding rate_limit_check
    rate_limit_check-Goes finding none e =
        subst (λ o. Goes (apply_tiers en layer facts parts o limits finding none) tt) e
          (apply_tiers-Goes finding none)
    rate_limit_check-Goes finding (some r) e = elim (Option-cases (r.rate_limits)) [
      | inl invalid ↦ absurd ((plain r e).tiers invalid)
      | inr (tiers, valid) ↦
          rw (valid, rate_limit_check)
            (subst (λ o. Goes (apply_tiers en layer facts parts o limits finding tiers) tt) e
              (apply_tiers-Goes finding tiers))
    ]

    detection_block-Answers :
        (verdict : RequestScanVerdict)
        → limits.passive_mode ≡ false
        → en.http.valid_status 400 ≡ true
        → Answers en parts layer
            (detection_block en layer facts parts limits (some verdict))
            (blocked_400 en layer)
    unfolding detection_block
    detection_block-Answers verdict active valid =
        rw (active, detection_block)
          (then-Answers en parts layer _ _ tt _ (effect-Goes _)
            (block_response-Answers en parts layer 400 _ valid))

    pub enforce-Goes :
        (frames : List Frame) (verdict : Option RequestScanVerdict)
        → layer.stage ≡ some limits
        → Tolerated en layer facts parts route limits verdict
        → CustomPasses en layer facts parts route frames
        → Goes (enforce en layer facts route parts false (non_empty (readable frames)) verdict) tt
    unfolding enforce
    enforce-Goes frames verdict installed ok passes =
        let finding = threat_finding verdict in
        bind-Goes _ _ limits tt (expect-Goes installed) (
          bind-Goes _ _ tt tt bans_check-Goes (
            bind-Goes _ _ tt tt geo_check-Goes (
              bind-Goes _ _ tt tt cloud_check-Goes (
                bind-Goes _ _ tt tt (user_agent_check-Goes finding) (
                  bind-Goes _ _ tt tt (rate_limit_check-Goes finding route refl) (
                    bind-Goes _ _ tt tt (detection_block-Goes verdict ok)
                      (custom_request_check-Goes frames passes)))))))

    -- A threat that is not only observed ends the request, behind the stages.
    pub enforce-Answers :
        (buffered : Option Text) (verdict : RequestScanVerdict)
        → layer.stage ≡ some limits
        → limits.passive_mode ≡ false
        → en.http.valid_status 400 ≡ true
        → Answers en parts layer
            (enforce en layer facts route parts false buffered (some verdict))
            (blocked_400 en layer)
    unfolding enforce
    enforce-Answers buffered verdict installed active valid =
        let finding = threat_finding (some verdict) in
        let r = blocked_400 en layer in
        then-Answers en parts layer _ _ limits r (expect-Goes installed) (
          then-Answers en parts layer _ _ tt r bans_check-Goes (
            then-Answers en parts layer _ _ tt r geo_check-Goes (
              then-Answers en parts layer _ _ tt r cloud_check-Goes (
                then-Answers en parts layer _ _ tt r (user_agent_check-Goes finding) (
                  then-Answers en parts layer _ _ tt r (rate_limit_check-Goes finding route refl) (
                    bind-Answers en parts layer _ _ r
                      (detection_block-Answers verdict active valid)))))))
