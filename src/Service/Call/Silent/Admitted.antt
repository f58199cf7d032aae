-- ===== src/Service/Call/Silent/Admitted.antt =====
-- What a request has shown when the checks in front of the body let it through: `GuardService::call` of
-- `src/service.rs`, beside the address checks.
use tower_guard_rs.Base.{
  codes, Bool, true, false, ◌||◌, Option, none, some, List, any, is_empty, is_some, map_or, [], ◌∷◌,
  ◌++◌, unwrap_or, next, ◌>>=◌, Option-cases, inl, inr, arith, refl, subst, pure, ◌≡◌,
}
use tower_guard_rs.Engine.{Engine}
use tower_guard_rs.Engine.Stages.{EmergencyModeStage, ResponseProcessor}
use tower_guard_rs.Route.{RouteConfig, bypassed}
use tower_guard_rs.Layer.{GuardLayer}
use tower_guard_rs.Request.{Parts, RequestFacts, client_text}
use tower_guard_rs.Response.{redirect, activity_banned_message, forbidden_message}
use tower_guard_rs.Service.Respond.Laws.{answer-ne-next, block_response-ne-next}
use tower_guard_rs.Service.RouteAccess.{route_country_access, apply_usage_rules, usage_rules}
use tower_guard_rs.Service.Checks.{
  block_on, emergency_check, stage_redirect, route_redirect, redirect_on, https_check,
}
use tower_guard_rs.Service.Call.Silent.{
  StageSilent, Ends, block-none, stage-Silent, stage_or-Silent,
}

module _ (en : Engine) (layer : GuardLayer en) (facts : RequestFacts en) (parts : Parts en) where
  pub block_on-Ends : Ends en (block_on en layer facts parts)
  unfolding block_on
  block_on-Ends a w = block_response-ne-next en parts layer tt a.status a.body w

  pub emergency_check-Silent :
      (w : en.World) {v : en.World}
      → emergency_check en layer facts parts w ≡ (next tt, v)
      → StageSilent en layer.emergency_mode (λ (stage : EmergencyModeStage en).
        stage.decide (client_text en facts) facts.ip_string facts.path facts.method)
  unfolding emergency_check
  emergency_check-Silent w h = stage-Silent en _ block_on-Ends w layer.emergency_mode _ h

  redirect_on-Ends : Ends en (redirect_on en layer facts parts)
  unfolding ◌>>=◌
  redirect_on-Ends a w = elim (Option-cases (redirect en a)) [
    | inl invalid ↦ rw invalid (λ e. cc)
    | inr (r, made) ↦ rw made (answer-ne-next en parts layer tt r w)
  ]

  -- Neither the HTTPS stage nor, without one, the route redirects.
  pub record IsSecure (route : Option (RouteConfig en)) : Type 0 where
    pub by_stage :
        StageSilent en layer.https_enforcement (stage_redirect en layer facts parts route)
    pub by_route : layer.https_enforcement ≡ none → route_redirect en layer facts parts route ≡ none

  pub https_check-IsSecure :
      (route : Option (RouteConfig en)) (w : en.World) {v : en.World}
      → https_check en layer facts parts route w ≡ (next tt, v)
      → IsSecure route
  unfolding https_check
  https_check-IsSecure route w h =
      let (silent, own) =
        stage_or-Silent en (redirect_on en layer facts parts) redirect_on-Ends w
          layer.https_enforcement (stage_redirect en layer facts parts route) _ h in
      record {
        by_stage = silent;
        by_route =
            λ off. block-none en (redirect_on en layer facts parts) redirect_on-Ends w _ (own off);
      }

  -- The behavior rules, run at some time, have no ban for the client.
  abbrev pub HasNoBan : List en.BehaviorRule → ResponseProcessor en → Type 0
  HasNoBan rules processor =
      (now : en.Time) × (u : en.World) × (any en.is_ban
          (processor.process_usage_rules (facts.method ++ b':' ∷ facts.path)
            (map_or [] en.ip_to_string facts.ip) rules now u).0
        ≡ false)

  apply_usage_rules-HasNoBan :
      (rules : List en.BehaviorRule) (processor : ResponseProcessor en) (w : en.World)
      {v : en.World}
      → apply_usage_rules en layer facts parts rules processor w ≡ (next tt, v)
      → HasNoBan rules processor
  unfolding apply_usage_rules ◌>>=◌
  apply_usage_rules-HasNoBan rules processor w h =
      let (now, u) = en.now w in
      let ran =
        processor.process_usage_rules (facts.method ++ b':' ∷ facts.path)
          (map_or [] en.ip_to_string facts.ip) rules now u in
      (
        now,
        u,
        ground (arith, block_response-ne-next en parts layer tt 403 activity_banned_message ran.1),
      )

  pub usage_rules-HasNoBan :
      (route : RouteConfig en) (processor : ResponseProcessor en) (w : en.World) {v : en.World}
      → usage_rules en layer facts parts (some route) w ≡ (next tt, v)
      → is_empty route.behavior_rules ≡ false
      → layer.response_processor ≡ some processor
      → HasNoBan route.behavior_rules processor
  unfolding usage_rules
  usage_rules-HasNoBan route processor w {v} h listed installed =
      apply_usage_rules-HasNoBan route.behavior_rules processor w (
        subst
          (λ o.
            map_or (pure tt) (apply_usage_rules en layer facts parts route.behavior_rules) o w
            ≡ (next tt, v))
          installed (rw (listed, usage_rules) at h))

  -- The countries of a route do not block the client.
  pub route_country_access-next :
      (route : RouteConfig en) (ip : en.Ip) (handler : en.GeoIpHandler) (w : en.World) {skip : Bool}
      {v : en.World}
      → route_country_access en layer facts parts (some route) w ≡ (next skip, v)
      → bypassed en (some route) (codes "ip") ≡ false
      → (is_some route.blocked_countries || is_some route.whitelist_countries) ≡ true
      → facts.ip ≡ some ip
      → layer.geo_handler ≡ some handler
      → en.check_countries ip
          (en.parse_country_lists
            (unwrap_or [] route.whitelist_countries)
            (unwrap_or [] route.blocked_countries))
          handler
          false
        ≡ none
  unfolding route_country_access
  route_country_access-next route ip handler w {skip} h kept listed known installed =
      ground (arith, block_response-ne-next en parts layer skip 403 forbidden_message w)

  -- A route without country lists leaves the global country stage on.
  pub route_country_access-unlisted :
      (route : Option (RouteConfig en)) (w : en.World) {skip : Bool} {v : en.World}
      → route_country_access en layer facts parts route w ≡ (next skip, v)
      → ((r : RouteConfig en)
          → route ≡ some r
          → (is_some r.blocked_countries || is_some r.whitelist_countries) ≡ false)
      → skip ≡ false
  unfolding route_country_access
  route_country_access-unlisted none w h open_lists = ground arith
  route_country_access-unlisted (some r) w h open_lists = ground (arith, open_lists r refl)
