-- ===== src/Service/Call/Unread.antt =====
-- Requests that `GuardService::call` of `src/service.rs` answers before it reads the body.
use tower_guard_rs.Base.{
  Bool, Text, codes, false, some, List, contains, ◌>>=◌, bind-next, bind_halted, bind_halted_twice,
  Act-cases, ◌≡◌, inl, inr, sym, ◌∙◌,
}
use tower_guard_rs.Engine.{Engine, denied}
use tower_guard_rs.Engine.Stages.{IpGateConfig}
use tower_guard_rs.Route.{bypassed}
use tower_guard_rs.Layer.{GuardLayer}
use tower_guard_rs.Request.{Parts, extract}
use tower_guard_rs.Service.Buffer.{Frame}
use tower_guard_rs.Service.Respond.{Handler}
use tower_guard_rs.Service.RouteAccess.{preflight}
use tower_guard_rs.Service.RouteAccess.Laws.{overrides}
use tower_guard_rs.Service.Call.{Service, Passed, admit, screen, guarded, forward, call}
use tower_guard_rs.Service.Call.Cleared.{IsAdmitted, admit-IsAdmitted}
use tower_guard_rs.Service.Call.Reach.{route_of}

module _ (en : Engine) (layer : GuardLayer en) (parts : Parts en) (w : en.World) where
  -- Neither the body nor the wrapped service makes a difference to what the call answers and does.
  abbrev pub IsUnread : Type 0
  IsUnread =
      (inner other : Service en) (frames more : List Frame)
      → call en layer inner parts frames w ≡ call en layer other parts more w

  abbrev Admitted : Parts en → Bool → Type 0
  Admitted = IsAdmitted en layer (extract en parts) (route_of en layer parts) parts

  abbrev finish : Service en → Passed en → Handler en (Unit {0})
  finish inner passed = forward en layer (extract en parts) passed.parts passed.buffered inner

  screen-unadmitted :
      (inner other : Service en) (frames more : List Frame) (u : en.World)
      → ((gated : Parts en) (skip : Bool) → ¬ Admitted gated skip)
      → (screen en layer (extract en parts) (route_of en layer parts) parts frames >>= finish inner)
          u
        ≡ (screen en layer (extract en parts) (route_of en layer parts) parts more >>= finish other)
            u
  unfolding screen
  screen-unadmitted inner other frames more u refuted =
      elim (Act-cases (admit en layer (extract en parts) (route_of en layer parts) parts) u) [
        | inl (out, v, on) ↦ absurd (
            refuted out.0 out.1
              (admit-IsAdmitted en layer (extract en parts) (route_of en layer parts) parts u on))
        | inr halted ↦ bind_halted_twice _ _ _ (finish inner) (finish other) u halted
      ]

  guarded-unadmitted :
      ((gated : Parts en) (skip : Bool) → ¬ Admitted gated skip)
      → (inner other : Service en) (frames more : List Frame)
      → guarded en layer (extract en parts) inner parts frames w
        ≡ guarded en layer (extract en parts) other parts more w
  unfolding guarded
  guarded-unadmitted refuted inner other frames more =
      elim (Act-cases (preflight en layer (extract en parts) parts) w) [
        | inr halted ↦ bind_halted _ _ _ w halted
        | inl (a, u, on) ↦
            bind-next _ _ w on
            ∙ screen-unadmitted inner other frames more u refuted
            ∙ sym (bind-next _ _ w on)
      ]

  unread :
      contains layer.exclude_paths parts.path ≡ false
      → ((gated : Parts en) (skip : Bool) → ¬ Admitted gated skip)
      → IsUnread
  unfolding call extract
  unread kept refuted inner other frames more =
      rw kept (guarded-unadmitted refuted inner other frames more)

  -- A client that the global gate denies is answered without its body: neither the body nor the wrapped
  -- service makes a difference to what the call answers and does, unless the path is excluded, passive
  -- mode is on, the route bypasses the check, or the route's own whitelist takes the gate's place.
  pub call-gate_denied_unread :
      (gate : IpGateConfig en) (ip : en.Ip) (reason : Text)
      → contains layer.exclude_paths parts.path ≡ false
      → layer.ip_gate ≡ some gate
      → parts.client_ip ≡ some ip
      → gate.evaluate ip ≡ denied reason
      → layer.passive_mode ≡ false
      → bypassed en (route_of en layer parts) (codes "ip") ≡ false
      → overrides en (route_of en layer parts) ≡ false
      → IsUnread
  call-gate_denied_unread gate ip reason kept installed known denial active applied global =
      unread kept λ gated skip admitted.
        let (d, allowed, _) = admitted.by_gate gate ip applied global active installed known in
        cc (denial, allowed)
