-- ===== src/Service/Gate/Laws.antt =====
-- What the gate of `src/service.rs` has established about a request that it lets through.
use tower_guard_rs.Base.{
  Text, codes, false, Option, none, some, next, ◌>>=◌, bind-eq-next, ◌≡◌, ◌≢◌, refl, arith,
}
use tower_guard_rs.Engine.{Engine, IpGateDecision, IpGateVerdict, allowed, denied}
use tower_guard_rs.Engine.Stages.{IpGateConfig}
use tower_guard_rs.Route.{RouteConfig, bypassed}
use tower_guard_rs.Layer.{GuardLayer}
use tower_guard_rs.Request.{Parts}
use tower_guard_rs.Response.{Response}
use tower_guard_rs.Service.Respond.Laws.{answer-ne-next}
use tower_guard_rs.Service.Gate.{deny_or_pass, after_verdict, enforce_ip_gate, ip_gate_check}

module _ (en : Engine) (layer : GuardLayer en) where
  -- An address that the gate judged was allowed, and its decision is in the parts.
  abbrev pub WasAllowed : IpGateConfig en → en.Ip → Parts en → Parts en → Type 0
  WasAllowed gate ip parts gated =
      (d : IpGateDecision) × (gate.evaluate ip ≡ allowed d)
      × (gated ≡ record parts { gate = some d })

  deny_or_pass-next :
      (o : Option (Response en Text) × Parts en) (w : en.World) {gated : Parts en} {v : en.World}
      → deny_or_pass en layer o w ≡ (next gated, v)
      → o ≡ (none, gated)
  deny_or_pass-next (none, p) w h = ground arith
  deny_or_pass-next (some denial, p) w {gated} h =
      absurd (answer-ne-next en p layer gated denial w (ground arith))

  denied-some :
      (reason : Text) (ip : en.Ip) (parts : Parts en) (w : en.World) {gated : Parts en}
      {v : en.World}
      → layer.passive_mode ≡ false
      → after_verdict en layer (denied reason) ip parts w ≢ (next (none, gated), v)
  unfolding after_verdict ◌>>=◌
  denied-some reason ip parts w active h = ground arith

  after_verdict-next :
      (o : IpGateVerdict) (ip : en.Ip) (parts : Parts en) (w : en.World) {gated : Parts en}
      {v : en.World}
      → layer.passive_mode ≡ false
      → after_verdict en layer o ip parts w ≡ (next (none, gated), v)
      → (d : IpGateDecision) × (o ≡ allowed d) × (gated ≡ record parts { gate = some d })
  unfolding after_verdict
  after_verdict-next (allowed d) ip parts w active h = (d, refl, ground arith)
  after_verdict-next (denied reason) ip parts w active h =
      absurd (denied-some reason ip parts w active h)

  pub ip_gate_check-next :
      (route : Option (RouteConfig en)) (parts : Parts en) (w : en.World) (gate : IpGateConfig en)
      (ip : en.Ip) {gated : Parts en} {v : en.World}
      → ip_gate_check en layer route false parts w ≡ (next gated, v)
      → bypassed en route (codes "ip") ≡ false
      → layer.passive_mode ≡ false
      → layer.ip_gate ≡ some gate
      → parts.client_ip ≡ some ip
      → WasAllowed gate ip parts gated
  unfolding ip_gate_check enforce_ip_gate
  ip_gate_check-next route parts w gate ip {gated} h kept active installed known =
      let (outcome, u, judged, rest) =
        bind-eq-next (enforce_ip_gate en layer parts) (deny_or_pass en layer) w
          (rw (kept, ip_gate_check) at h) in
      after_verdict-next (gate.evaluate ip) ip parts w active (
        rw (installed, known, enforce_ip_gate) at (rw (deny_or_pass-next outcome u rest) at judged))
