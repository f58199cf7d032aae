-- ===== src/Service/Checks/Laws.antt =====
-- What a request has shown when the body check of `GuardService::call` lets it through.
use tower_guard_rs.Base.{ℕ, ◌≤◌, Text, false, Option, List, length, next, ◌≡◌, arith}
use tower_guard_rs.Engine.{Engine}
use tower_guard_rs.Route.{RouteConfig}
use tower_guard_rs.Layer.{GuardLayer}
use tower_guard_rs.Request.{Parts, RequestFacts}
use tower_guard_rs.Service.Buffer.{
  Frame, Buffering, whole, failed, too_large, read, non_empty, buffer_body,
}
use tower_guard_rs.Service.Buffer.Laws.{readable, has_error, buffer_body_lem}
use tower_guard_rs.Service.Respond.Laws.{oversize_response-ne-next, failure_response-ne-next}
use tower_guard_rs.Service.Checks.{body_cap, after_buffering, buffer_check}

-- The whole body was read, it is within the cap, and it is what is handed on.
pub record IsBuffered (frames : List Frame) (cap : ℕ) (buffered : Option Text) : Type 0 where
  pub no_error : has_error frames ≡ false
  pub within : length (readable frames) ≤ cap
  pub content : buffered ≡ non_empty (readable frames)

buffer_body-whole :
    (frames : List Frame) (cap : ℕ) (b : Option Text)
    → buffer_body frames cap ≡ whole b
    → IsBuffered frames cap b
buffer_body-whole frames cap b e = ground (arith, buffer_body_lem frames cap)

module _ (en : Engine) (layer : GuardLayer en) (facts : RequestFacts en) (parts : Parts en) where
  after_buffering-next :
      (o : Buffering) (w : en.World) {b : Option Text} {v : en.World}
      → after_buffering en layer facts parts o w ≡ (next b, v)
      → o ≡ whole b
  after_buffering-next (whole o) w h = ground arith
  after_buffering-next (failed too_large) w {b} h =
      absurd (oversize_response-ne-next en parts layer b w (ground arith))
  after_buffering-next (failed read) w {b} h =
      absurd (failure_response-ne-next en parts layer b w (ground arith))

  pub buffer_check-next :
      (route : Option (RouteConfig en)) (frames : List Frame) (w : en.World) {b : Option Text}
      {v : en.World}
      → buffer_check en layer facts parts route frames w ≡ (next b, v)
      → IsBuffered frames (body_cap en layer facts parts route) b
  unfolding buffer_check
  buffer_check-next route frames w h = buffer_body-whole frames _ _ (after_buffering-next _ w h)
