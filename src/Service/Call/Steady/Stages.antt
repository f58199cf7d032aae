-- ===== src/Service/Call/Steady/Stages.antt =====
-- The checks of `GuardService::call` of `src/service.rs` behind the scan do not panic.
use tower_guard_rs.Base.{
  Text, codes, Bool, not, ◌&&◌, ◌||◌, Option, none, some, [], is_empty, unwrap_or, IsSteady,
  pure-IsSteady, if-IsSteady, elim-IsSteady, map_or-IsSteady, effect-IsSteady, bind-IsSteady,
  perform-IsSteady, ◌≡◌, refl,
}
use tower_guard_rs.Engine.{Engine, RequestScanVerdict}
use tower_guard_rs.Engine.Stages.{StageResponse, RateLimitStage, ThreatFinding}
use tower_guard_rs.Route.{RouteConfig, bypassed}
use tower_guard_rs.Layer.{GuardLayer}
use tower_guard_rs.Request.{Parts, RequestFacts}
use tower_guard_rs.Service.EnginePass.{
  is_skipped, stage_answer, stage_block, bans_check, geo_check, cloud_route, cloud_global,
  cloud_dispatch, cloud_check, route_user_agents, user_agent_check, apply_tiers, rate_limit_check,
  detection_block, custom_request_check,
}
use tower_guard_rs.Service.Call.Steady.{Valid, StatusesValid, StagesValid}
use tower_guard_rs.Service.Call.Steady.Entry.{
  answer-IsSteady, block_response-IsSteady, failure_response-IsSteady,
}

module _ (en : Engine) (statuses : StatusesValid en) (layer : GuardLayer en)
    (stages : StagesValid en layer) (facts : RequestFacts en) (parts : Parts en) where
  stage_answer-IsSteady :
      (o : Option StageResponse) → IsSteady (stage_answer en layer facts parts o)
  stage_answer-IsSteady none = pure-IsSteady tt
  stage_answer-IsSteady (some blocked) = answer-IsSteady en parts layer _

  stage_block-IsSteady :
      (o : Option StageResponse)
      → ((a : StageResponse) → o ≡ some a → Valid en a.status)
      → IsSteady (stage_block en layer facts parts o)
  stage_block-IsSteady none valid = pure-IsSteady tt
  stage_block-IsSteady (some a) valid =
      block_response-IsSteady en parts layer a.status a.body (valid a refl)

  pub bans_check-IsSteady :
      (route : Option (RouteConfig en)) (limits : RateLimitStage en)
      → IsSteady (bans_check en layer facts parts route limits)
  unfolding bans_check
  bans_check-IsSteady route limits =
      if-IsSteady (bypassed en route (codes "ip_ban")) _ _ (λ on. pure-IsSteady tt)
        λ off. perform-IsSteady _ _ λ w. stage_answer-IsSteady _

  pub geo_check-IsSteady :
      (route : Option (RouteConfig en)) (skip : Bool)
      → IsSteady (geo_check en layer facts parts route skip)
  unfolding geo_check
  geo_check-IsSteady route skip =
      if-IsSteady (not (bypassed en route (codes "ip")) && not skip) _ _
        (λ kept.
          map_or-IsSteady layer.geo_blocking _ _ (pure-IsSteady tt) λ stage on.
            perform-IsSteady _ _ λ w. stage_block-IsSteady _ (stages.geo stage on _ _ w))
        (λ off. pure-IsSteady tt)

  cloud_global-IsSteady : IsSteady (cloud_global en layer facts parts)
  cloud_global-IsSteady =
      map_or-IsSteady layer.cloud_provider _ _ (pure-IsSteady tt)
        λ stage on. perform-IsSteady _ _ λ w. stage_block-IsSteady _ (stages.cloud stage on _ _ w)

  cloud_route-IsSteady :
      (route : RouteConfig en) → IsSteady (cloud_route en layer facts parts route)
  cloud_route-IsSteady route =
      elim-IsSteady (en.parse_cloud_selectors route.block_cloud_providers) _ _
        (failure_response-IsSteady en parts layer)
        λ selectors parsed. map_or-IsSteady layer.cloud_provider _ _ (pure-IsSteady tt) λ stage on.
          perform-IsSteady _ _ λ w. stage_block-IsSteady _ (stages.cloud_route stage on _ _ _ w)

  cloud_dispatch-IsSteady :
      (route : Option (RouteConfig en)) → IsSteady (cloud_dispatch en layer facts parts route)
  cloud_dispatch-IsSteady none = cloud_global-IsSteady
  cloud_dispatch-IsSteady (some route) =
      if-IsSteady (is_empty route.block_cloud_providers) _ _ (λ empty. cloud_global-IsSteady)
        (λ listed. cloud_route-IsSteady route)

  pub cloud_check-IsSteady :
      (route : Option (RouteConfig en)) → IsSteady (cloud_check en layer facts parts route)
  unfolding cloud_check
  cloud_check-IsSteady route =
      if-IsSteady (bypassed en route (codes "clouds")) _ _ (λ on. pure-IsSteady tt)
        (λ off. cloud_dispatch-IsSteady route)

  route_user_agents-IsSteady :
      (route : Option (RouteConfig en)) → IsSteady (route_user_agents en layer facts parts route)
  unfolding route_user_agents
  route_user_agents-IsSteady none = pure-IsSteady tt
  route_user_agents-IsSteady (some route) =
      if-IsSteady (is_empty route.blocked_user_agents || is_skipped facts.gate) _ _
        (λ on. pure-IsSteady tt)
        λ off.
          elim-IsSteady (en.from_trusted_patterns route.blocked_user_agents) _ _
            (failure_response-IsSteady en parts layer)
            λ filter parsed.
              if-IsSteady (en.is_blocked filter (unwrap_or [] facts.user_agent)) _ _
                (λ blocked. block_response-IsSteady en parts layer 403 _ statuses.own_403)
                (λ fine. pure-IsSteady tt)

  pub user_agent_check-IsSteady :
      (route : Option (RouteConfig en)) (finding : Option ThreatFinding)
      → IsSteady (user_agent_check en layer facts parts route finding)
  unfolding user_agent_check
  user_agent_check-IsSteady route finding =
      bind-IsSteady _ _ (route_user_agents-IsSteady route) λ _.
        map_or-IsSteady layer.user_agent _ _ (pure-IsSteady tt) λ stage on.
          perform-IsSteady _ _ λ w. stage_block-IsSteady _ (stages.agents stage on _ _ _ _ _ w)

  apply_tiers-IsSteady :
      (route : Option (RouteConfig en)) (limits : RateLimitStage en)
      (finding : Option ThreatFinding) (tiers : Option en.RouteRateLimits)
      → IsSteady (apply_tiers en layer facts parts route limits finding tiers)
  unfolding apply_tiers
  apply_tiers-IsSteady route limits finding tiers =
      if-IsSteady (bypassed en route (codes "rate_limit")) _ _ (λ on. pure-IsSteady tt)
        λ off. perform-IsSteady _ _ λ w. stage_answer-IsSteady _

  pub rate_limit_check-IsSteady :
      (route : Option (RouteConfig en)) (limits : RateLimitStage en)
      (finding : Option ThreatFinding)
      → IsSteady (rate_limit_check en layer facts parts route limits finding)
  unfolding rate_limit_check
  rate_limit_check-IsSteady none limits finding = apply_tiers-IsSteady none limits finding none
  rate_limit_check-IsSteady (some route) limits finding =
      elim-IsSteady route.rate_limits _ _ (failure_response-IsSteady en parts layer)
        λ tiers sound. apply_tiers-IsSteady (some route) limits finding tiers

  pub detection_block-IsSteady :
      (limits : RateLimitStage en) (verdict : Option RequestScanVerdict)
      → IsSteady (detection_block en layer facts parts limits verdict)
  unfolding detection_block
  detection_block-IsSteady limits none = pure-IsSteady tt
  detection_block-IsSteady limits (some verdict) =
      if-IsSteady limits.passive_mode _ _ (λ on. pure-IsSteady tt)
        λ off.
          bind-IsSteady _ _ (effect-IsSteady _)
            λ _. block_response-IsSteady en parts layer 400 _ statuses.own_400

  pub custom_request_check-IsSteady :
      (buffered : Option Text) → IsSteady (custom_request_check en layer facts parts buffered)
  unfolding custom_request_check
  custom_request_check-IsSteady buffered =
      map_or-IsSteady layer.custom_checks _ _ (pure-IsSteady tt) λ stage on.
        perform-IsSteady _ _ λ w. map_or-IsSteady _ _ _ (pure-IsSteady tt) λ status there.
          block_response-IsSteady en parts layer (unwrap_or 200 status) []
            (stages.custom_request stage on _ _ _ _ w status there)
