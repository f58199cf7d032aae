-- ===== src/Service/Call/Excluded.antt =====
-- The paths that `GuardService::call` of `src/service.rs` carves out of the whole pipeline.
use tower_guard_rs.Base.{true, List, [], contains, stop, ◌≡◌, refl}
use tower_guard_rs.Engine.{Engine}
use tower_guard_rs.Layer.{GuardLayer}
use tower_guard_rs.Request.{Parts, extract}
use tower_guard_rs.Service.Buffer.{Frame}
use tower_guard_rs.Service.Call.{Service, finish_forwarded, forward, call}

module _ (en : Engine) (layer : GuardLayer en) (inner : Service en) (parts : Parts en)
    (frames : List Frame) where
  -- On an excluded path no check runs: the wrapped service is called at once with the request's parts
  -- and an empty body, whatever body the client sent, and its answer goes through the response-side
  -- pass.
  pub call-excluded :
      (w : en.World)
      → contains layer.exclude_paths parts.path ≡ true
      → call en layer inner parts frames w ≡ (
          let (answer, v) = inner parts [] w in
          let (reply, u) = finish_forwarded en layer (extract en parts) answer v in (stop reply, u))
  unfolding call extract forward
  call-excluded w excluded = rw excluded refl
