-- ===== src/Tests/Calls.antt =====
-- The theorems about `GuardService::call` of `src/service.rs`, applied.
use tower_guard_rs.Base.{codes, none, some, [], ◌∷◌, inl, refl, arith, contains, decimal}
use tower_guard_rs.Layer.{GuardLayer}
use tower_guard_rs.Request.{Parts}
use tower_guard_rs.Service.Buffer.{payload}
use tower_guard_rs.Route.{bypassed}
use tower_guard_rs.Service.RouteAccess.{resolve_route}
use tower_guard_rs.Service.Checks.{body_cap}
use tower_guard_rs.Service.EnginePass.{scan_enabled}
use tower_guard_rs.Service.Call.Reach.{IsUnreached, Screened, call-Screened}
use tower_guard_rs.Service.Call.Safety.{
  call-route_denied, call-unbuffered, call-scan_panics, call-threat,
}
use tower_guard_rs.Tests.Toy.{toy}
use tower_guard_rs.Tests.Fixtures.{limits, sqli, bare, request, closed_gate, closed_route}

abbrev gated : GuardLayer toy
gated = record bare { ip_gate = some closed_gate }

abbrev routed : Parts toy
routed = record request { route_config = some closed_route }

call-route_denied_example : IsUnreached toy bare routed [] 0
unfolding contains bypassed resolve_route decimal
call-route_denied_example =
    call-route_denied toy bare routed [] 0 closed_route ([], codes "7" ∷ []) refl refl refl refl
      refl

call-unbuffered_example :
    IsUnreached toy bare request (payload (codes "12345") ∷ payload (codes "6789") ∷ []) 0
unfolding contains body_cap resolve_route
call-unbuffered_example =
    call-unbuffered toy bare request (payload (codes "12345") ∷ payload (codes "6789") ∷ []) 0 refl
      (inl (omega arith))

abbrev panicking : GuardLayer toy
panicking = record bare { scan_fn = λ _ _ _. none }

call-scan_panics_example : IsUnreached toy panicking request [] 0
unfolding contains scan_enabled bypassed resolve_route
call-scan_panics_example = call-scan_panics toy panicking request [] 0 refl refl (λ _ _ _. refl)

abbrev flagging : GuardLayer toy
flagging = record bare { scan_fn = λ _ _ _. some sqli }

call-threat_example : IsUnreached toy flagging request [] 0
unfolding contains scan_enabled bypassed resolve_route
call-threat_example =
    call-threat toy flagging request [] 0 limits sqli refl refl (λ _ _ _. refl) refl refl refl

call-Screened_example : Screened toy bare request (payload (codes "x") ∷ []) 0
unfolding contains
call-Screened_example = call-Screened toy bare request (payload (codes "x") ∷ []) 0 refl
