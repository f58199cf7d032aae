-- ===== src/Service/Call/Reach.antt =====
-- When `GuardService::call` of `src/service.rs` reaches the wrapped service.
use tower_guard_rs.Base.{
  false, Option, List, contains, next, Act-cases, ◌>>=◌, bind-next, bind_halted, ◌≡◌, ◌≢◌, ◌⊎◌, ◌∙◌,
  inl, inr, sym,
}
use tower_guard_rs.Engine.{Engine}
use tower_guard_rs.Route.{RouteConfig}
use tower_guard_rs.Layer.{GuardLayer}
use tower_guard_rs.Request.{Parts, extract}
use tower_guard_rs.Service.Respond.{Handler}
use tower_guard_rs.Service.Buffer.{Frame}
use tower_guard_rs.Service.RouteAccess.{preflight, resolve_route}
use tower_guard_rs.Service.Call.{Service, Passed, screen, forward, guarded, call}
use tower_guard_rs.Service.Call.Cleared.{IsCleared, screen-IsCleared}

module _ (en : Engine) (layer : GuardLayer en) where
  -- The wrapped service makes no difference to what the call does.
  abbrev pub IsUnreached : Parts en → List Frame → en.World → Type 0
  IsUnreached parts frames w =
      (inner other : Service en)
      → call en layer inner parts frames w ≡ call en layer other parts frames w

  abbrev pub route_of : Parts en → Option (RouteConfig en)
  route_of parts = resolve_route en layer (extract en parts) parts

  -- The call hands the passed request to the wrapped service, in the world that the checks left.
  abbrev pub IsForwarded : Parts en → List Frame → en.World → Passed en → en.World → Type 0
  IsForwarded parts frames w passed v =
      (inner : Service en)
      → call en layer inner parts frames w
        ≡ forward en layer (extract en parts) passed.parts passed.buffered inner v

  abbrev pub Screened : Parts en → List Frame → en.World → Type 0
  Screened parts frames w =
      ((passed : Passed en) × (v : en.World) × IsCleared en layer (extract en parts)
          (route_of parts) parts frames passed
        × IsForwarded parts frames w passed v)
      ⊎ IsUnreached parts frames w

  module _ (parts : Parts en) (frames : List Frame) (w : en.World) where
    pub call-guarded :
        (inner : Service en)
        → contains layer.exclude_paths (extract en parts).path ≡ false
        → call en layer inner parts frames w
          ≡ guarded en layer (extract en parts) inner parts frames w
    unfolding call
    call-guarded inner kept = rw kept

    guarded_halted :
        (inner other : Service en)
        → ((a : Unit {0}) → (preflight en layer (extract en parts) parts w).0 ≢ next a)
        → guarded en layer (extract en parts) inner parts frames w
          ≡ guarded en layer (extract en parts) other parts frames w
    unfolding guarded
    guarded_halted inner other halted = bind_halted _ _ _ w halted

    abbrev finish : Service en → Passed en → Handler en (Unit {0})
    finish inner passed = forward en layer (extract en parts) passed.parts passed.buffered inner

    abbrev rest : Service en → Handler en (Unit {0})
    rest inner = screen en layer (extract en parts) (route_of parts) parts frames >>= finish inner

    guarded-rest :
        (inner : Service en) (a : Unit {0}) (u : en.World)
        → preflight en layer (extract en parts) parts w ≡ (next a, u)
        → guarded en layer (extract en parts) inner parts frames w ≡ rest inner u
    unfolding guarded
    guarded-rest inner a u on = bind-next _ _ w on

    -- A request on no excluded path is either cleared, and then it is handed to the wrapped service in
    -- the parts and with the body that the checks have seen, or the wrapped service makes no
    -- difference to what the call does. Cleared is: the route's address lists, countries, rules, headers,
    -- referrer, validators and hours admit it; the global gate allowed it, unless the gate is bypassed,
    -- overridden or passive; it is not redirected; each installed stage that is not bypassed was asked and
    -- had no answer (emergency, HTTPS, headers, referrer, validators, time window, bans, countries where
    -- the route lists none, clouds, user agents, rate limits, custom request); its body was read whole
    -- within the cap; a scan that is on did not fail; and a threat goes on only where the rate-limit stage
    -- is passive.
    pub call-Screened :
        contains layer.exclude_paths (extract en parts).path ≡ false → Screened parts frames w
    call-Screened kept = elim (Act-cases (preflight en layer (extract en parts) parts) w) [
      | inr halted ↦ inr λ inner other.
          call-guarded inner kept
          ∙ guarded_halted inner other halted
          ∙ sym (call-guarded other kept)
      | inl (a, u, on) ↦
          let enter = λ (inner : Service en). call-guarded inner kept ∙ guarded-rest inner a u on in
          elim (Act-cases (screen en layer (extract en parts) (route_of parts) parts frames) u) [
            | inl (passed, v, cleared) ↦ inl (
              passed,
              v,
              screen-IsCleared en layer (extract en parts) (route_of parts) parts frames u cleared,
              λ inner. enter inner ∙ bind-next _ (finish inner) u cleared,
            )
            | inr halted ↦ inr λ inner other.
                enter inner
                ∙ bind_halted _ (finish inner) (finish other) u halted
                ∙ sym (enter other)
          ]
    ]
