-- ===== src/Service/Call/Silent/Enforced.antt =====
-- What a request has shown when the checks behind the scan let it through: `GuardService::call` of
-- `src/service.rs`, beside the detection block and the route's user agents.
use tower_guard_rs.Base.{
  ℕ, Text, codes, true, false, Option, none, some, is_empty, map_or, and_then, from_utf8, unwrap_or,
  [], next, through, Option-cases, Bool-cases, inl, inr, ap, refl, subst, ◌≡◌,
}
use mathlib.Core.Option.{some-injective}
use tower_guard_rs.Engine.{Engine}
use tower_guard_rs.Engine.Stages.{
  RateLimitStage, GeoStage, CloudProviderStage, UserAgentStage, CustomChecksStage, ThreatFinding,
}
use tower_guard_rs.Route.{RouteConfig, bypassed}
use tower_guard_rs.Layer.{GuardLayer}
use tower_guard_rs.Request.{Parts, RequestFacts, client_text, request_observation}
use tower_guard_rs.Response.{stage}
use tower_guard_rs.Service.Respond.{block_response}
use tower_guard_rs.Service.Respond.Laws.{
  answer-ne-next, block_response-ne-next, failure_response-ne-next,
}
use tower_guard_rs.Service.EnginePass.{
  stage_answer, stage_block, bans_check, geo_check, cloud_route, cloud_global, cloud_dispatch,
  cloud_check, user_agent_check, or_extension, apply_tiers, rate_limit_check, custom_request_check,
}
use tower_guard_rs.Service.Call.Silent.{Silent, StageSilent, Ends, perform-Silent, stage-Silent}

module _ (en : Engine) (layer : GuardLayer en) (facts : RequestFacts en) (parts : Parts en) where
  stage_answer-Ends : Ends en (stage_answer en layer facts parts)
  stage_answer-Ends a w = answer-ne-next en parts layer tt (stage en a) w

  stage_block-Ends : Ends en (stage_block en layer facts parts)
  stage_block-Ends a w = block_response-ne-next en parts layer tt a.status a.body w

  pub bans_check-Silent :
      (route : Option (RouteConfig en)) (limits : RateLimitStage en) (w : en.World) {v : en.World}
      → bans_check en layer facts parts route limits w ≡ (next tt, v)
      → bypassed en route (codes "ip_ban") ≡ false
      → Silent en (limits.decide_bans_observed facts.ip (some (request_observation en parts)))
  unfolding bans_check
  bans_check-Silent route limits w h kept =
      perform-Silent en (stage_answer en layer facts parts) stage_answer-Ends w _
        (rw (kept, bans_check) at h)

  pub geo_check-Silent :
      (route : Option (RouteConfig en)) (w : en.World) {v : en.World}
      → geo_check en layer facts parts route false w ≡ (next tt, v)
      → bypassed en route (codes "ip") ≡ false
      → StageSilent en layer.geo_blocking (λ (geo : GeoStage en). geo.decide facts.ip facts.gate)
  unfolding geo_check
  geo_check-Silent route w h kept =
      stage-Silent en (stage_block en layer facts parts) stage_block-Ends w layer.geo_blocking _
        (rw (kept, geo_check) at h)

  -- The selectors of the route are valid, and the stage has no answer for them.
  abbrev pub CloudsSilent : RouteConfig en → Type 0
  CloudsSilent r =
      (selectors : en.CloudSelectors) × (en.parse_cloud_selectors r.block_cloud_providers
        ≡ some selectors)
      × StageSilent en layer.cloud_provider
          (λ (cloud : CloudProviderStage en). cloud.decide_route facts.ip facts.gate selectors)

  -- The cloud check asks with the selectors of the route, where it has any, and else without.
  pub record IsUncloudy (route : Option (RouteConfig en)) : Type 0 where
    pub globally :
        ((r : RouteConfig en) → route ≡ some r → is_empty r.block_cloud_providers ≡ true)
        → StageSilent en layer.cloud_provider
            (λ (cloud : CloudProviderStage en). cloud.decide facts.ip facts.gate)
    pub by_route :
        (r : RouteConfig en)
        → route ≡ some r
        → is_empty r.block_cloud_providers ≡ false
        → CloudsSilent r

  global-Silent :
      (w : en.World) {v : en.World}
      → cloud_global en layer facts parts w ≡ (next tt, v)
      → StageSilent en layer.cloud_provider
          (λ (cloud : CloudProviderStage en). cloud.decide facts.ip facts.gate)
  global-Silent w h =
      stage-Silent en (stage_block en layer facts parts) stage_block-Ends w layer.cloud_provider _ h

  route-Silent :
      (r : RouteConfig en) (w : en.World) {v : en.World}
      → cloud_route en layer facts parts r w ≡ (next tt, v)
      → CloudsSilent r
  route-Silent r w h = elim (Option-cases (en.parse_cloud_selectors r.block_cloud_providers)) [
    | inl invalid ↦ absurd (
        failure_response-ne-next en parts layer tt w
          (ap (λ x. x.0) (rw (invalid, cloud_route) at h)))
    | inr (selectors, parsed) ↦ (
      selectors,
      parsed,
      stage-Silent en (stage_block en layer facts parts) stage_block-Ends w layer.cloud_provider _
          (rw (parsed, cloud_route) at h),
    )
  ]

  dispatch-IsUncloudy :
      (route : Option (RouteConfig en)) (w : en.World) {v : en.World}
      → cloud_dispatch en layer facts parts route w ≡ (next tt, v)
      → IsUncloudy route
  dispatch-IsUncloudy none w h = record {
    globally = λ unlisted. global-Silent w h;
    by_route = λ r e. cc;
  }
  dispatch-IsUncloudy (some route) w h = elim (Bool-cases (is_empty route.block_cloud_providers)) [
    | inl empty ↦ record {
      globally = λ unlisted. global-Silent w (rw (empty, cloud_dispatch) at h);
      by_route = λ r e listed.
          let also =
            subst (λ (x : RouteConfig en). is_empty x.block_cloud_providers ≡ true)
              (some-injective route r e) empty in
          cc;
    }
    | inr listed ↦ record {
      globally = λ unlisted. let also = unlisted route refl in cc;
      by_route = λ r e _.
          subst CloudsSilent (some-injective route r e)
            (route-Silent route w (rw (listed, cloud_dispatch) at h));
    }
  ]

  pub cloud_check-IsUncloudy :
      (route : Option (RouteConfig en)) (w : en.World) {v : en.World}
      → cloud_check en layer facts parts route w ≡ (next tt, v)
      → bypassed en route (codes "clouds") ≡ false
      → IsUncloudy route
  unfolding cloud_check
  cloud_check-IsUncloudy route w h kept = dispatch-IsUncloudy route w (rw (kept, cloud_check) at h)

  pub user_agent_check-Silent :
      (route : Option (RouteConfig en)) (finding : Option ThreatFinding) (w : en.World)
      {v : en.World}
      → user_agent_check en layer facts parts route finding w ≡ (next tt, v)
      → StageSilent en layer.user_agent (λ (agents : UserAgentStage en).
        agents.decide facts.ip facts.gate (some facts.path) facts.user_agent finding)
  unfolding user_agent_check
  user_agent_check-Silent route finding w h = through _ _ w h λ _ u own later.
      stage-Silent en (stage_block en layer facts parts) stage_block-Ends u layer.user_agent _ later

  -- The tiers that the rate limit is asked with: the route's, which are valid, and else the request's.
  abbrev pub TiersSilent :
      Option (RouteConfig en) → RateLimitStage en → Option ThreatFinding → Type 0
  TiersSilent route limits finding =
      (tiers : Option en.RouteRateLimits) × ((r : RouteConfig en)
        → route ≡ some r
        → r.rate_limits ≡ some tiers)
      × Silent en (
          limits.decide_tiers_observed facts.ip (some facts.path)
            (or_extension en layer facts parts tiers) parts.gate finding
            (some (request_observation en parts)))

  apply_tiers-Silent :
      (route : Option (RouteConfig en)) (limits : RateLimitStage en)
      (finding : Option ThreatFinding) (tiers : Option en.RouteRateLimits) (w : en.World)
      {v : en.World}
      → apply_tiers en layer facts parts route limits finding tiers w ≡ (next tt, v)
      → bypassed en route (codes "rate_limit") ≡ false
      → Silent en (
          limits.decide_tiers_observed facts.ip
            (some facts.path)
            (or_extension en layer facts parts tiers)
            parts.gate
            finding
            (some (request_observation en parts)))
  unfolding apply_tiers
  apply_tiers-Silent route limits finding tiers w h kept =
      perform-Silent en (stage_answer en layer facts parts) stage_answer-Ends w _
        (rw (kept, apply_tiers) at h)

  pub rate_limit_check-TiersSilent :
      (route : Option (RouteConfig en)) (limits : RateLimitStage en)
      (finding : Option ThreatFinding) (w : en.World) {v : en.World}
      → rate_limit_check en layer facts parts route limits finding w ≡ (next tt, v)
      → bypassed en route (codes "rate_limit") ≡ false
      → TiersSilent route limits finding
  unfolding rate_limit_check
  rate_limit_check-TiersSilent none limits finding w h kept =
      (none, λ r e. cc, apply_tiers-Silent none limits finding none w h kept)
  rate_limit_check-TiersSilent (some route) limits finding w h kept =
      elim (Option-cases route.rate_limits) [
        | inl invalid ↦ absurd (
            failure_response-ne-next en parts layer tt w
              (ap (λ x. x.0) (rw (invalid, rate_limit_check) at h)))
        | inr (tiers, valid) ↦ (
          tiers,
          λ r e.
              subst (λ (x : RouteConfig en). x.rate_limits ≡ some tiers) (some-injective route r e)
                valid,
          apply_tiers-Silent (some route) limits finding tiers w (rw (valid, rate_limit_check) at h)
              kept,
        )
      ]

  status-Ends : Ends en (λ (o : Option (Option ℕ)).
      map_or
        (λ w. (next tt, w))
        (λ status. block_response en parts layer (unwrap_or 200 status) [])
        o)
  status-Ends a w = block_response-ne-next en parts layer tt (unwrap_or 200 a) [] w

  pub custom_request_check-Silent :
      (buffered : Option Text) (w : en.World) {v : en.World}
      → custom_request_check en layer facts parts buffered w ≡ (next tt, v)
      → StageSilent en layer.custom_checks (λ (stage : CustomChecksStage en).
        stage.decide_custom_request facts.method facts.path
          (client_text en facts)
          (and_then buffered from_utf8))
  unfolding custom_request_check
  custom_request_check-Silent buffered w h = stage-Silent en _ status-Ends w layer.custom_checks _ h
