-- ===== src/Service/Call/Lenient/Admitted.antt =====
-- The checks of `GuardService::call` of `src/service.rs` in front of the body, for a request that they have
-- no answer for.
use tower_guard_rs.Base.{
  codes, Bool, false, Option, none, some, eq_ignore_ascii_case, pure, ◌>>◌, Goes, pure-Goes,
  perform-Goes, effect-Goes, bind-Goes, map_or-Goes, Bool-cases, Option-cases, ◌≡◌, inl, inr, refl,
}
use tower_guard_rs.Engine.{Engine, IpGateDecision}
use tower_guard_rs.Route.{RouteConfig, bypassed}
use tower_guard_rs.Layer.{GuardLayer}
use tower_guard_rs.Request.{Parts, RequestFacts}
use tower_guard_rs.Service.RouteAccess.{
  preflight, usage_rules, route_ip_access, route_country_access,
}
use tower_guard_rs.Service.Checks.{
  block_on, emergency_check, https_check, log_request, log_country_check,
}
use tower_guard_rs.Service.Call.{admit}
use tower_guard_rs.Service.Call.Lenient.{IsUnruled, Enters, Admits}
use tower_guard_rs.Service.Call.Lenient.Gated.{with_gate, Admits-with_gate}
use tower_guard_rs.Service.Call.Lenient.Attributed.{ip_gate_check-Goes}

module _ (en : Engine) (layer : GuardLayer en) (facts : RequestFacts en) (parts : Parts en) where
  pub preflight-Goes :
      eq_ignore_ascii_case facts.method (codes "OPTIONS") ≡ false
      → Goes (preflight en layer facts parts) tt
  unfolding preflight
  preflight-Goes other = rw (other, preflight) (pure-Goes tt)

  pub usage_rules-Goes :
      (route : Option (RouteConfig en))
      → IsUnruled en layer facts parts route
      → Goes (usage_rules en layer facts parts route) tt
  unfolding usage_rules
  usage_rules-Goes none h = pure-Goes tt
  usage_rules-Goes (some r) h = rw ((h r refl).behavior, usage_rules) (pure-Goes tt)

  pub route_ip_access-Goes :
      (route : Option (RouteConfig en))
      → IsUnruled en layer facts parts route
      → Goes (route_ip_access en layer facts parts route) false
  unfolding route_ip_access
  route_ip_access-Goes none h = pure-Goes false
  route_ip_access-Goes (some r) h =
      rw ((h r refl).lists, route_ip_access)
        (elim (Bool-cases (bypassed en (some r) (codes "ip"))) [
          | inl skipped ↦ rw (skipped, route_ip_access) (pure-Goes false)
          | inr kept ↦ rw (kept, route_ip_access) (pure-Goes false)
        ])

  pub route_country_access-Goes :
      (route : Option (RouteConfig en))
      → IsUnruled en layer facts parts route
      → Goes (route_country_access en layer facts parts route) false
  unfolding route_country_access
  route_country_access-Goes none h = pure-Goes false
  route_country_access-Goes (some r) h =
      rw ((h r refl).countries, route_country_access)
        (elim (Bool-cases (bypassed en (some r) (codes "ip"))) [
          | inl skipped ↦ rw (skipped, route_country_access) (pure-Goes false)
          | inr kept ↦ rw (kept, route_country_access) (pure-Goes false)
        ])

  pub emergency_check-Goes :
      (route : Option (RouteConfig en))
      → Enters en layer facts parts route
      → Goes (emergency_check en layer facts parts) tt
  unfolding emergency_check block_on
  emergency_check-Goes route h = elim (Option-cases (layer.emergency_mode)) [
    | inl off ↦ rw (off, emergency_check) (pure-Goes tt)
    | inr (stage, on) ↦
        rw (on, emergency_check)
          (bind-Goes _ _ none tt (perform-Goes _ none λ w. h.emergency stage w on) (pure-Goes tt))
  ]

  https_check-Goes :
      (route : Option (RouteConfig en))
      → Admits en layer facts parts route
      → Goes (https_check en layer facts parts route) tt
  unfolding https_check
  https_check-Goes route h = elim (Option-cases (layer.https_enforcement)) [
    | inl off ↦ rw (off, h.own_https off, https_check) (pure-Goes tt)
    | inr (stage, on) ↦
        rw (on, https_check)
          (bind-Goes _ _ none tt (perform-Goes _ none λ w. h.https stage w on) (pure-Goes tt))
  ]

  log_request-Goes : Goes (log_request en layer facts parts) tt
  unfolding log_request
  log_request-Goes =
      map_or-Goes layer.request_logging _ _ tt (pure-Goes tt) λ stage on. effect-Goes _

  log_country_check-Goes : Goes (log_country_check en layer facts parts) tt
  unfolding log_country_check
  log_country_check-Goes = elim (Option-cases (layer.observability)) [
    | inl off ↦ rw (off, log_country_check) (pure-Goes tt)
    | inr (o, on) ↦ elim (Option-cases (layer.geo_blocking)) [
      | inl none_there ↦ rw (on, none_there, log_country_check) (pure-Goes tt)
      | inr (stage, there) ↦ rw (on, there, log_country_check) (effect-Goes _)
    ]
  ]

module _ (en : Engine) (layer : GuardLayer en) (facts : RequestFacts en) (parts : Parts en)
    (route : Option (RouteConfig en)) where
  -- The gate's decision stands in the parts by now, and these checks do not read it.
  tail-Goes :
      (g : Option IpGateDecision)
      → Admits en layer facts parts route
      → Goes {A = Parts en × Bool}
          (emergency_check en layer facts (with_gate en parts g)
            >> (https_check en layer facts (with_gate en parts g) route
                >> (log_request en layer facts (with_gate en parts g)
                    >> (log_country_check en layer facts (with_gate en parts g)
                        >> pure (with_gate en parts g, false)))))
          (with_gate en parts g, false)
  tail-Goes g h =
      let gated = with_gate en parts g in
      let kept = Admits-with_gate en layer facts parts route g h in
      bind-Goes _ _ tt _ (emergency_check-Goes en layer facts gated route kept.enters) (
        bind-Goes _ _ tt _ (https_check-Goes en layer facts gated route kept) (
          bind-Goes _ _ tt _ (log_request-Goes en layer facts gated)
            (bind-Goes _ _ tt _ (log_country_check-Goes en layer facts gated) (pure-Goes _))))

  pub admit-Goes :
      IsUnruled en layer facts parts route
      → Admits en layer facts parts route
      → (g : Option IpGateDecision) × Goes
          (admit en layer facts route parts)
          (with_gate en parts g, false)
  unfolding admit
  admit-Goes plain h =
      let (g, passes) = ip_gate_check-Goes en layer parts facts route h.enters in
      (
        g,
        bind-Goes _ _ tt _ (usage_rules-Goes en layer facts parts route plain) (
            bind-Goes _ _ false _ (route_ip_access-Goes en layer facts parts route plain) (
              bind-Goes _ _ false _ (route_country_access-Goes en layer facts parts route plain)
                (bind-Goes _ _ (with_gate en parts g) _ passes (tail-Goes g h)))),
      )
