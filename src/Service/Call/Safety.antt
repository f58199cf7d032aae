-- ===== src/Service/Call/Safety.antt =====
-- Which requests `GuardService::call` of `src/service.rs` keeps from the wrapped service.
use tower_guard_rs.Base.{
  ◌<◌, true, false, Option, none, some, List, length, contains, map_or, ◌≡◌, ◌⊎◌, inl, inr, sym, ap,
  subst, arith, ◌∙◌,
}
use tower_guard_rs.Engine.{Engine, RequestSurfaces, RequestScanVerdict}
use tower_guard_rs.Engine.Stages.{RateLimitStage}
use tower_guard_rs.Route.{RouteConfig}
use tower_guard_rs.Layer.{GuardLayer, DetectConfig}
use tower_guard_rs.Request.{Parts, extract}
use tower_guard_rs.Service.Buffer.{Frame}
use tower_guard_rs.Service.Buffer.Laws.{readable, has_error}
use tower_guard_rs.Service.RouteAccess.Laws.{lists_apply, gate_of}
use tower_guard_rs.Service.Scan.Laws.{scan_request-failed, scan_request-threat}
use tower_guard_rs.Service.EnginePass.Laws.{Judged}
use tower_guard_rs.Service.Checks.{body_cap}
use tower_guard_rs.Service.EnginePass.{scan_enabled}
use tower_guard_rs.Service.Call.{Passed}
use tower_guard_rs.Service.Call.Cleared.{IsCleared}
use tower_guard_rs.Service.Call.Reach.{IsUnreached, route_of, call-Screened}

module _ (en : Engine) (layer : GuardLayer en) (parts : Parts en) (frames : List Frame)
    (w : en.World) where
  abbrev Clears : Passed en → Type 0
  Clears = IsCleared en layer (extract en parts) (route_of en layer parts) parts frames

  unreached :
      contains layer.exclude_paths parts.path ≡ false
      → ((passed : Passed en) → ¬ Clears passed)
      → IsUnreached en layer parts frames w
  unfolding extract
  unreached kept refuted = elim (call-Screened en layer parts frames w kept) [
    | inl (passed, v, cleared, _) ↦ absurd (refuted passed cleared)
    | inr same ↦ same
  ]

  threat_stops :
      (verdict : RequestScanVerdict) (v : Option RequestScanVerdict) (a b : RateLimitStage en)
      → v ≡ some verdict
      → layer.stage ≡ some a
      → layer.stage ≡ some b
      → b.passive_mode ≡ false
      → (v ≡ none) ⊎ (a.passive_mode ≡ true)
      → ⊥
  threat_stops verdict v a b flagged one two active (inl none_found) = cc
  threat_stops verdict v a b flagged one two active (inr passive) = cc (
      ap
        (λ (r : Option (RateLimitStage en)).
          map_or false (λ (l : RateLimitStage en). l.passive_mode) r)
        (sym one ∙ two))

  -- A client that the route's own address lists deny, where they apply and are valid, never reaches
  -- the wrapped service on a path that is not excluded, whether or not passive mode is on.
  pub call-route_denied :
      (route : RouteConfig en) (gate : en.RouteIpGate)
      → contains layer.exclude_paths parts.path ≡ false
      → route_of en layer parts ≡ some route
      → lists_apply en route ≡ true
      → gate_of en route ≡ some gate
      → en.is_denied (map_or en.unrestricted (en.evaluate_route gate) parts.client_ip) ≡ true
      → IsUnreached en layer parts frames w
  unfolding extract
  call-route_denied route gate kept found applied built denial =
      unreached kept λ passed c.
        let (g, same, admitted) = c.admitted.by_route route found applied in ground arith

  -- A body that is longer than the cap, or whose stream breaks, never reaches the wrapped service on a
  -- path that is not excluded.
  pub call-unbuffered :
      contains layer.exclude_paths parts.path ≡ false
      → (body_cap en layer (extract en parts) parts (route_of en layer parts)
          < length (readable frames))
        ⊎ (has_error frames ≡ true)
      → IsUnreached en layer parts frames w
  unfolding body_cap
  call-unbuffered kept bad = unreached kept λ passed c. let body = c.inspected.body in ground arith

  -- Where the engine panics on every scan, no request whose scan is on reaches the wrapped service on a
  -- path that is not excluded.
  pub call-scan_panics :
      contains layer.exclude_paths parts.path ≡ false
      → scan_enabled en layer (extract en parts) parts (route_of en layer parts) ≡ true
      → ((s : RequestSurfaces) (r : en.ResolvedExclusions) (c : DetectConfig en)
          → layer.scan_fn s r c ≡ none)
      → IsUnreached en layer parts frames w
  unfolding scan_enabled
  call-scan_panics kept on panics = unreached kept λ passed c.
      subst (λ o. Judged en layer (extract en parts) passed.parts o c.verdict)
        (scan_request-failed en layer passed.parts passed.buffered panics) (c.inspected.scanned on)

  -- Where every scan finds the same threat, and the rate-limit stage is not passive, no request whose
  -- scan is on reaches the wrapped service on a path that is not excluded.
  pub call-threat :
      (limits : RateLimitStage en) (verdict : RequestScanVerdict)
      → contains layer.exclude_paths parts.path ≡ false
      → scan_enabled en layer (extract en parts) parts (route_of en layer parts) ≡ true
      → ((s : RequestSurfaces) (r : en.ResolvedExclusions) (c : DetectConfig en)
          → layer.scan_fn s r c ≡ some verdict)
      → verdict.is_threat ≡ true
      → layer.stage ≡ some limits
      → limits.passive_mode ≡ false
      → IsUnreached en layer parts frames w
  unfolding scan_enabled
  call-threat limits verdict kept on found threat installed active = unreached kept λ passed c.
      let flagged : c.verdict ≡ some verdict =
        subst (λ o. Judged en layer (extract en parts) passed.parts o c.verdict)
          (scan_request-threat en layer passed.parts passed.buffered verdict found threat)
          (c.inspected.scanned on) in
      threat_stops verdict c.verdict c.enforced.limits limits flagged (c.enforced.installed)
        installed active c.enforced.no_threat
