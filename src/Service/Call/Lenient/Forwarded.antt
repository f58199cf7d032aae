-- ===== src/Service/Call/Lenient/Forwarded.antt =====
-- A request that nothing in `GuardService::call` of `src/service.rs` answers reaches the wrapped service.
use tower_guard_rs.Base.{
  false, Option, some, List, contains, stop, bind-next, pure-Goes, bind-Goes, Goes, ◌≡◌, refl, ◌∙◌,
}
use tower_guard_rs.Engine.{Engine, IpGateDecision}
use tower_guard_rs.Engine.Stages.{RateLimitStage}
use tower_guard_rs.Route.{RouteConfig}
use tower_guard_rs.Layer.{GuardLayer}
use tower_guard_rs.Request.{Parts, RequestFacts, extract}
use tower_guard_rs.Service.Buffer.{Frame, non_empty}
use tower_guard_rs.Service.Buffer.Laws.{readable, unwrap_or-non_empty}
use tower_guard_rs.Service.Call.{Service, screen, finish_forwarded, forward, guarded, call}
use tower_guard_rs.Service.Call.Reach.{route_of}
use tower_guard_rs.Service.Call.Lenient.{
  IsUnruled, Admits, Inspects, Tolerates, Enforces, CustomPasses,
}
use tower_guard_rs.Service.Call.Lenient.Admitted.{preflight-Goes, admit-Goes}
use tower_guard_rs.Service.Call.Lenient.Gated.{
  with_gate, IsUnruled-with_gate, Inspects-with_gate, Tolerates-with_gate, Enforces-with_gate,
}
use tower_guard_rs.Service.Call.Lenient.Inspected.{detect-Goes, inspect-Goes}
use tower_guard_rs.Service.Call.Lenient.Enforced.{enforce-Goes}

module _ (en : Engine) (layer : GuardLayer en) (limits : RateLimitStage en) where
  module _ (facts : RequestFacts en) (parts : Parts en) (route : Option (RouteConfig en))
      (frames : List Frame) where
    screen-Goes :
        layer.stage ≡ some limits
        → IsUnruled en layer facts parts route
        → Admits en layer facts parts route
        → Inspects en layer facts parts route frames
        → Tolerates en layer facts parts route frames limits
        → Enforces en layer facts parts route limits
        → CustomPasses en layer facts parts route frames
        → (g : Option IpGateDecision) × Goes
            (screen en layer facts route parts frames)
            (record { parts = with_gate en parts g; buffered = non_empty (readable frames) })
    unfolding screen
    screen-Goes installed plain admits inspects tolerates enforces passes =
        let (g, first) = admit-Goes en layer facts parts route plain admits in
        let gated = with_gate en parts g in
        let unruled = IsUnruled-with_gate en layer facts parts route g plain in
        let (verdict, scan, ok) =
          detect-Goes en layer facts gated route limits frames
            (Tolerates-with_gate en layer facts parts route g frames limits tolerates) in
        let second =
          inspect-Goes en layer facts gated route frames unruled
            (Inspects-with_gate en layer facts parts route g frames inspects) verdict scan in
        let third =
          enforce-Goes en layer facts gated route limits unruled
            (Enforces-with_gate en layer facts parts route g limits enforces) frames verdict
            installed ok passes in
        (
          g,
          bind-Goes _ _ _ _ first
              (bind-Goes _ _ _ _ second (bind-Goes _ _ _ _ third (pure-Goes _))),
        )

  module _ (parts : Parts en) (frames : List Frame) (w : en.World) where
    -- The wrapped service is given the parts, with a gate decision, and the whole body, and its answer
    -- goes through the response-side pass.
    abbrev pub IsReached : Type 0
    IsReached =
        (g : Option IpGateDecision) × (u : en.World) × ((inner : Service en)
          → call en layer inner parts frames w ≡ (
              let (answer, v) = inner (with_gate en parts g) (readable frames) u in
              let (reply, v') = finish_forwarded en layer (extract en parts) answer v in
              (stop reply, v')))

    forward-whole :
        (g : Option IpGateDecision) (u : en.World) (inner : Service en)
        → forward en layer
            (extract en parts)
            (with_gate en parts g)
            (non_empty (readable frames))
            inner
            u
          ≡ (let (answer, v) = inner (with_gate en parts g) (readable frames) u in
              let (reply, v') = finish_forwarded en layer (extract en parts) answer v in
              (stop reply, v'))
    unfolding forward
    forward-whole g u inner = rw (unwrap_or-non_empty (readable frames)) refl

    call-guarded :
        (inner : Service en)
        → contains layer.exclude_paths parts.path ≡ false
        → call en layer inner parts frames w
          ≡ guarded en layer (extract en parts) inner parts frames w
    unfolding call extract
    call-guarded inner kept = rw kept

    -- A request that nothing answers reaches the wrapped service, with the parts and a decision of the
    -- gate, with its whole body, and its answer goes through the response-side pass: for any layer whose
    -- rate-limit stage is there, a path that is not excluded, no preflight request, a route without rules
    -- of its own, a body within the cap that does not break, a scan that does not panic, no redirect to
    -- HTTPS, and no answer of an installed stage that the route does not bypass. The gate may deny the client where it is passive
    -- or bypassed, and the scan may find a threat where the rate-limit stage is passive.
    pub call-lenient :
        contains layer.exclude_paths parts.path ≡ false
        → layer.stage ≡ some limits
        → IsUnruled en layer (extract en parts) parts (route_of en layer parts)
        → Admits en layer (extract en parts) parts (route_of en layer parts)
        → Inspects en layer (extract en parts) parts (route_of en layer parts) frames
        → Tolerates en layer (extract en parts) parts (route_of en layer parts) frames limits
        → Enforces en layer (extract en parts) parts (route_of en layer parts) limits
        → CustomPasses en layer (extract en parts) parts (route_of en layer parts) frames
        → IsReached
    unfolding guarded extract
    call-lenient kept installed plain admits inspects tolerates enforces passes =
        let facts = extract en parts in
        let route = route_of en layer parts in
        let (g, goes) =
          screen-Goes facts parts route frames installed plain admits inspects tolerates enforces
            passes in
        let (u1, entered) =
          (preflight-Goes en layer facts parts admits.enters.no_preflight).runs w in
        let (u2, screened) = goes.runs u1 in
        (
          g,
          u2,
          λ inner.
              call-guarded inner kept
              ∙ (bind-next _ _ w entered ∙ (bind-next _ _ u1 screened ∙ forward-whole g u2 inner)),
        )
