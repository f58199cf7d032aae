-- ===== src/Service/Call/Lenient/Attributed.antt =====
-- The global gate in `GuardService::call` of `src/service.rs`, for a client that it allows or only observes.
use tower_guard_rs.Base.{
  codes, true, false, Option, none, some, pure, Goes, pure-Goes, bind-Goes, Bool-cases,
  Option-cases, ◌≡◌, ◌⊎◌, inl, inr, sym, subst,
}
use tower_guard_rs.Engine.{Engine, IpGateDecision, IpGateVerdict, allowed, denied}
use tower_guard_rs.Engine.Stages.{IpGateConfig}
use tower_guard_rs.Route.{RouteConfig, bypassed}
use tower_guard_rs.Layer.{GuardLayer}
use tower_guard_rs.Request.{Parts, RequestFacts}
use tower_guard_rs.Service.Gate.{after_verdict, enforce_ip_gate, ip_gate_check}
use tower_guard_rs.Service.Call.Lenient.{Enters}
use tower_guard_rs.Service.Call.Lenient.Gated.{with_gate}

module _ (en : Engine) (layer : GuardLayer en) where
  module _ (parts : Parts en) where
    abbrev Observed : Type 0
    Observed =
        (layer.passive_mode ≡ true)
        ⊎ ((gate : IpGateConfig en) (ip : en.Ip)
            → layer.ip_gate ≡ some gate
            → parts.client_ip ≡ some ip
            → (d : IpGateDecision) × (gate.evaluate ip ≡ allowed d))

    after_verdict-Goes :
        (verdict : IpGateVerdict) (ip : en.Ip)
        → (layer.passive_mode ≡ true) ⊎ ((d : IpGateDecision) × (verdict ≡ allowed d))
        → (g : Option IpGateDecision) × Goes
            (after_verdict en layer verdict ip parts)
            (none, with_gate en parts g)
    unfolding after_verdict
    after_verdict-Goes (allowed d) ip h = (some d, pure-Goes _)
    after_verdict-Goes (denied reason) ip (inl passive) =
        (parts.gate, rw (passive, after_verdict) (pure-Goes _))
    after_verdict-Goes (denied reason) ip (inr (d, e)) = cc

    settled :
        (gate : IpGateConfig en) (ip : en.Ip)
        → layer.ip_gate ≡ some gate
        → parts.client_ip ≡ some ip
        → Observed
        → (layer.passive_mode ≡ true) ⊎ ((d : IpGateDecision) × (gate.evaluate ip ≡ allowed d))
    settled gate ip on known (inl passive) = inl passive
    settled gate ip on known (inr admitted) = inr (admitted gate ip on known)

    unjudged :
        (gate : IpGateConfig en)
        → layer.ip_gate ≡ some gate
        → parts.client_ip ≡ none
        → enforce_ip_gate en layer parts ≡ pure (none, parts)
    unfolding enforce_ip_gate
    unjudged gate on unknown = simp (on, unknown, enforce_ip_gate)

    pub judged :
        (gate : IpGateConfig en) (ip : en.Ip)
        → layer.ip_gate ≡ some gate
        → parts.client_ip ≡ some ip
        → enforce_ip_gate en layer parts ≡ after_verdict en layer (gate.evaluate ip) ip parts
    unfolding enforce_ip_gate
    judged gate ip on known = simp (on, known, enforce_ip_gate)

    enforce_ip_gate-Goes :
        Observed
        → (g : Option IpGateDecision) × Goes
            (enforce_ip_gate en layer parts)
            (none, with_gate en parts g)
    unfolding enforce_ip_gate
    enforce_ip_gate-Goes h = elim (Option-cases (layer.ip_gate)) [
      | inl off ↦ (parts.gate, rw (off, enforce_ip_gate) (pure-Goes _))
      | inr (gate, on) ↦ elim (Option-cases (parts.client_ip)) [
        | inl unknown ↦ (
          parts.gate,
          subst (λ m. Goes m (none, parts)) (sym (unjudged gate on unknown))
              (pure-Goes (none, parts)),
        )
        | inr (ip, known) ↦
            let (g, r) = after_verdict-Goes (gate.evaluate ip) ip (settled gate ip on known h) in
            (g, subst (λ m. Goes m (none, with_gate en parts g)) (sym (judged gate ip on known)) r)
      ]
    ]

    gate_check-Goes :
        (route : Option (RouteConfig en))
        → Observed
        → (g : Option IpGateDecision) × Goes
            (ip_gate_check en layer route false parts)
            (with_gate en parts g)
    unfolding ip_gate_check
    gate_check-Goes route h = elim (Bool-cases (bypassed en route (codes "ip"))) [
      | inl skipped ↦ (parts.gate, rw (skipped, ip_gate_check) (pure-Goes _))
      | inr kept ↦
          let (g, r) = enforce_ip_gate-Goes h in
          (g, rw (kept, ip_gate_check) (bind-Goes _ _ _ _ r (pure-Goes _)))
    ]

    pub ip_gate_check-Goes :
        (facts : RequestFacts en) (route : Option (RouteConfig en))
        → Enters en layer facts parts route
        → (g : Option IpGateDecision) × Goes
            (ip_gate_check en layer route false parts)
            (with_gate en parts g)
    unfolding ip_gate_check
    ip_gate_check-Goes facts route h = elim (h.gate) [
      | inl skipped ↦ (parts.gate, rw (skipped, ip_gate_check) (pure-Goes _))
      | inr observed ↦ gate_check-Goes route observed
    ]
