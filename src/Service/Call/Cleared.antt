-- ===== src/Service/Call/Cleared.antt =====
-- What `GuardService::call` of `src/service.rs` has established about a request before it reaches
-- the wrapped service.
use tower_guard_rs.Base.{
  Text, codes, Bool, true, false, Option, none, some, List, is_empty, is_some, ◌||◌, and_then,
  from_utf8, unwrap_or, next, pure-eq-next, expect-eq-next, through, subst, ◌∙◌, ◌≡◌, ◌⊎◌, [],
}
use tower_guard_rs.Engine.{Engine, RequestScanVerdict}
use tower_guard_rs.Engine.Stages.{
  IpGateConfig, RateLimitStage, ResponseProcessor, EmergencyModeStage, GeoStage, UserAgentStage,
  CustomChecksStage,
}
use tower_guard_rs.Route.{RouteConfig, bypassed}
use tower_guard_rs.Layer.{GuardLayer}
use tower_guard_rs.Request.{Parts, RequestFacts, client_text, request_observation}
use tower_guard_rs.Service.Buffer.{Frame}
use tower_guard_rs.Service.Scan.{scan_request}
use tower_guard_rs.Service.Respond.{threat_finding}
use tower_guard_rs.Service.RouteAccess.{route_ip_access, usage_rules, route_country_access}
use tower_guard_rs.Service.Gate.{ip_gate_check}
use tower_guard_rs.Service.RouteAccess.Laws.{
  lists_apply, overrides, RouteAdmits, route_ip_access-overrides, route_ip_access-RouteAdmits,
}
use tower_guard_rs.Service.Call.Silent.{Silent, StageSilent}
use tower_guard_rs.Service.Call.Silent.Admitted.{
  HasNoBan, IsSecure, usage_rules-HasNoBan, route_country_access-next,
  route_country_access-unlisted, emergency_check-Silent, https_check-IsSecure,
}
use tower_guard_rs.Service.Call.Silent.Inspected.{IsVetted}
use tower_guard_rs.Service.Call.Silent.Vetted.{checks-IsVetted}
use tower_guard_rs.Service.Call.Silent.Enforced.{
  IsUncloudy, TiersSilent, bans_check-Silent, geo_check-Silent, cloud_check-IsUncloudy,
  user_agent_check-Silent, rate_limit_check-TiersSilent, custom_request_check-Silent,
}
use tower_guard_rs.Service.Gate.Laws.{WasAllowed, ip_gate_check-next}
use tower_guard_rs.Service.Checks.{body_cap}
use tower_guard_rs.Service.Checks.Laws.{IsBuffered, buffer_check-next}
use tower_guard_rs.Service.EnginePass.{geo_check, scan_enabled, is_skipped, user_agent_check}
use tower_guard_rs.Service.EnginePass.Laws.{
  Judged, detect-next, detection_block-next, user_agent_check-next,
}
use tower_guard_rs.Service.Call.{Passed, admit, inspect, enforce, screen}

module _ (en : Engine) (layer : GuardLayer en) (facts : RequestFacts en)
    (route : Option (RouteConfig en)) where
  -- The route has no country lists of its own, so the global country stage stays on.
  abbrev pub Unlisted : Type 0
  Unlisted =
      (r : RouteConfig en)
      → route ≡ some r
      → (is_some r.blocked_countries || is_some r.whitelist_countries) ≡ false

  -- After the checks in front of the body; the flag tells whether the global countries are skipped.
  pub record IsAdmitted (parts gated : Parts en) (skip : Bool) : Type 0 where
    -- The behavior rules of the route, where there is a processor to run them, ban nobody.
    pub by_usage :
        (r : RouteConfig en) (processor : ResponseProcessor en)
        → route ≡ some r
        → is_empty r.behavior_rules ≡ false
        → layer.response_processor ≡ some processor
        → HasNoBan en layer facts parts r.behavior_rules processor
    -- The countries of the route do not block the client.
    pub by_countries :
        (r : RouteConfig en) (ip : en.Ip) (handler : en.GeoIpHandler)
        → route ≡ some r
        → bypassed en (some r) (codes "ip") ≡ false
        → (is_some r.blocked_countries || is_some r.whitelist_countries) ≡ true
        → facts.ip ≡ some ip
        → layer.geo_handler ≡ some handler
        → en.check_countries ip
            (en.parse_country_lists
              (unwrap_or [] r.whitelist_countries)
              (unwrap_or [] r.blocked_countries))
            handler
            false
          ≡ none
    pub countries_on : Unlisted → skip ≡ false
    pub emergency : StageSilent en layer.emergency_mode (λ (stage : EmergencyModeStage en).
        stage.decide (client_text en facts) facts.ip_string facts.path facts.method)
    pub secure : IsSecure en layer facts gated route
    -- The route's own address lists, where they apply, are valid and do not deny the client.
    pub by_route :
        (r : RouteConfig en) → route ≡ some r → lists_apply en r ≡ true → RouteAdmits en facts.ip r
    -- The global gate, unless it is bypassed, overridden or passive, allowed the client.
    pub by_gate :
        (gate : IpGateConfig en) (ip : en.Ip)
        → bypassed en route (codes "ip") ≡ false
        → overrides en route ≡ false
        → layer.passive_mode ≡ false
        → layer.ip_gate ≡ some gate
        → parts.client_ip ≡ some ip
        → WasAllowed en layer gate ip parts gated

  -- After the scan: the whole body is within the cap, and a scan that is on did not fail.
  pub record IsInspected (parts : Parts en) (frames : List Frame) (buffered : Option Text)
      (verdict : Option RequestScanVerdict) : Type 0 where
    pub body : IsBuffered frames (body_cap en layer facts parts route) buffered
    pub vetted : IsVetted en layer facts parts route buffered
    pub scanned :
        scan_enabled en layer facts parts route ≡ true
        → Judged en layer facts parts (scan_request en parts buffered layer) verdict

  -- After the stage pass: no stage that is not bypassed had an answer, and a threat goes on only under
  -- passive mode.
  pub record IsEnforced (parts : Parts en) (skip : Bool) (buffered : Option Text)
      (verdict : Option RequestScanVerdict) : Type 0 where
    pub limits : RateLimitStage en
    pub installed : layer.stage ≡ some limits
    pub no_threat : (verdict ≡ none) ⊎ (limits.passive_mode ≡ true)
    pub bans :
        bypassed en route (codes "ip_ban") ≡ false
        → Silent en (limits.decide_bans_observed facts.ip (some (request_observation en parts)))
    pub geo :
        skip ≡ false
        → bypassed en route (codes "ip") ≡ false
        → StageSilent en layer.geo_blocking (λ (geo : GeoStage en). geo.decide facts.ip facts.gate)
    pub clouds : bypassed en route (codes "clouds") ≡ false → IsUncloudy en layer facts parts route
    pub agents : StageSilent en layer.user_agent (λ (agents : UserAgentStage en).
        agents.decide facts.ip facts.gate
          (some facts.path)
          facts.user_agent
          (threat_finding verdict))
    pub tiers :
        bypassed en route (codes "rate_limit") ≡ false
        → TiersSilent en layer facts parts route limits (threat_finding verdict)
    pub custom_request : StageSilent en layer.custom_checks (λ (checks : CustomChecksStage en).
        checks.decide_custom_request facts.method facts.path
          (client_text en facts)
          (and_then buffered from_utf8))
    pub by_user_agent :
        (r : RouteConfig en)
        → route ≡ some r
        → is_empty r.blocked_user_agents ≡ false
        → is_skipped facts.gate ≡ false
        → (filter : en.UserAgentFilter) × (en.from_trusted_patterns r.blocked_user_agents
            ≡ some filter)
          × (en.is_blocked filter (unwrap_or [] facts.user_agent) ≡ false)

  pub record IsCleared (parts : Parts en) (frames : List Frame) (passed : Passed en) : Type 0 where
    pub verdict : Option RequestScanVerdict
    pub skip : Bool
    pub admitted : IsAdmitted parts passed.parts skip
    pub inspected : IsInspected passed.parts frames passed.buffered verdict
    pub enforced : IsEnforced passed.parts skip passed.buffered verdict

  gated-by_gate :
      (parts gated : Parts en) (skip : Bool) (w w1 w2 v : en.World) (g : IpGateConfig en)
      (ip : en.Ip)
      → route_ip_access en layer facts parts route w ≡ (next skip, w1)
      → ip_gate_check en layer route skip parts w2 ≡ (next gated, v)
      → bypassed en route (codes "ip") ≡ false
      → overrides en route ≡ false
      → layer.passive_mode ≡ false
      → layer.ip_gate ≡ some g
      → parts.client_ip ≡ some ip
      → WasAllowed en layer g ip parts gated
  gated-by_gate parts gated skip w w1 w2 v g ip lists gate kept global active installed known =
      let open_lists : skip ≡ false =
        route_ip_access-overrides en layer facts parts route w lists ∙ global in
      ip_gate_check-next en layer route parts w2 g ip
        (subst (λ b. ip_gate_check en layer route b parts w2 ≡ (next gated, v)) open_lists gate)
        kept active installed known

  pub admit-IsAdmitted :
      (parts : Parts en) (w : en.World) {out : Parts en × Bool} {v : en.World}
      → admit en layer facts route parts w ≡ (next out, v)
      → IsAdmitted parts out.0 out.1
  unfolding admit
  admit-IsAdmitted parts w {out} h = through _ _ w h λ _ w1 usage h1.
      through _ _ w1 h1 λ skip w2 lists h2. through _ _ w2 h2 λ off w3 lands h3.
        through _ _ w3 h3 λ gated w4 gate h4. through _ _ w4 h4 λ _ w5 calm h5.
          through _ _ w5 h5 λ _ w6 secure h6. through _ _ w6 h6 λ _ w7 _ h7.
            through _ _ w7 h7 λ _ w8 _ h8.
              subst (λ (o : Parts en × Bool). IsAdmitted parts o.0 o.1)
                (pure-eq-next (gated, off) w8 h8)
                (record {
                  by_usage = λ r processor e.
                      usage_rules-HasNoBan en layer facts parts r processor w
                        (subst (λ o. usage_rules en layer facts parts o w ≡ (next tt, w1)) e usage);
                  by_countries = λ r ip handler e.
                      route_country_access-next en layer facts parts r ip handler w2 (
                        subst (λ o. route_country_access en layer facts parts o w2 ≡ (next off, w3))
                          e lands);
                  countries_on = route_country_access-unlisted en layer facts parts route w2 lands;
                  emergency = emergency_check-Silent en layer facts gated w4 calm;
                  secure = https_check-IsSecure en layer facts gated route w5 secure;
                  by_route = λ r e applied.
                      route_ip_access-RouteAdmits en layer facts parts r w1
                        (subst (λ o. route_ip_access en layer facts parts o w1 ≡ (next skip, w2)) e
                          lists)
                        applied;
                  by_gate = λ g ip kept global active installed known.
                      gated-by_gate parts gated skip w1 w2 w3 w4 g ip lists gate kept global active
                        installed known;
                })

  inspect-IsInspected :
      (parts : Parts en) (frames : List Frame) (w : en.World)
      {out : Option Text × Option RequestScanVerdict} {v : en.World}
      → inspect en layer facts route parts frames w ≡ (next out, v)
      → IsInspected parts frames out.0 out.1
  unfolding inspect
  inspect-IsInspected parts frames w {out} h = through _ _ w h λ buffered w1 body h1.
      through _ _ w1 h1 λ _ w2 c1 h2. through _ _ w2 h2 λ _ w3 c2 h3.
        through _ _ w3 h3 λ _ w4 c3 h4. through _ _ w4 h4 λ _ w5 c4 h5.
          through _ _ w5 h5 λ verdict w6 scan h6.
            subst
              (λ (o : Option Text × Option RequestScanVerdict). IsInspected parts frames o.0 o.1)
              (pure-eq-next (buffered, verdict) w6 h6)
              (record {
                body = buffer_check-next en layer facts parts route frames w body;
                vetted =
                    checks-IsVetted en layer facts parts route buffered w1 w2 w3 w4 c1 c2 c3 c4;
                scanned = detect-next en layer facts parts route buffered w5 scan;
              })

  enforce-IsEnforced :
      (parts : Parts en) (skip : Bool) (buffered : Option Text)
      (verdict : Option RequestScanVerdict) (w : en.World) {v : en.World}
      → enforce en layer facts route parts skip buffered verdict w ≡ (next tt, v)
      → IsEnforced parts skip buffered verdict
  unfolding enforce
  enforce-IsEnforced parts skip buffered verdict w h = through _ _ w h λ limits w1 found h1.
      through _ _ w1 h1 λ _ w2 banned h2. through _ _ w2 h2 λ _ w3 lands h3.
        through _ _ w3 h3 λ _ w4 clouds h4. through _ _ w4 h4 λ _ w5 agents h5.
          through _ _ w5 h5 λ _ w6 tiers h6. through _ _ w6 h6 λ _ w7 block custom. record {
            limits = limits;
            installed = expect-eq-next layer.stage w found;
            no_threat = detection_block-next en layer facts parts limits verdict w6 w7 block;
            bans = bans_check-Silent en layer facts parts route limits w1 banned;
            geo = λ on.
                geo_check-Silent en layer facts parts route w2
                  (subst (λ b. geo_check en layer facts parts route b w2 ≡ (next tt, w3)) on lands);
            clouds = cloud_check-IsUncloudy en layer facts parts route w3 clouds;
            agents =
                user_agent_check-Silent en layer facts parts route (threat_finding verdict) w4
                  agents;
            tiers =
                rate_limit_check-TiersSilent en layer facts parts route limits
                  (threat_finding verdict) w5 tiers;
            custom_request = custom_request_check-Silent en layer facts parts buffered w7 custom;
            by_user_agent = λ r e.
                user_agent_check-next en layer facts parts r (threat_finding verdict) w4 w5 (
                  subst
                    (λ o.
                      user_agent_check en layer facts parts o (threat_finding verdict) w4
                      ≡ (next tt, w5))
                    e agents);
          }

  pub screen-IsCleared :
      (parts : Parts en) (frames : List Frame) (w : en.World) {passed : Passed en} {v : en.World}
      → screen en layer facts route parts frames w ≡ (next passed, v)
      → IsCleared parts frames passed
  unfolding screen
  screen-IsCleared parts frames w h = through _ _ w h λ admitted w1 first h1.
      through _ _ w1 h1 λ inspected w2 second h2. through _ _ w2 h2 λ _ w3 third h3.
        subst (IsCleared parts frames) (pure-eq-next _ w3 h3) (record {
          verdict = inspected.1;
          skip = admitted.1;
          admitted = admit-IsAdmitted parts w first;
          inspected = inspect-IsInspected admitted.0 frames w1 second;
          enforced = enforce-IsEnforced admitted.0 admitted.1 inspected.0 inspected.1 w2 third;
        })
