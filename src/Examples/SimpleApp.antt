-- ===== src/Examples/SimpleApp.antt =====
-- `examples/simple_app/src/main.rs`: a router behind a guard with the default configuration, and a
-- health path in front of it.
use tower_guard_rs.Base.{
  ◌≤◌, Text, codes, false, none, List, length, stop, text_eq, if◌then◌else◌, Bool-cases, inl, inr,
  ◌≡◌, refl,
}
use tower_guard_rs.Engine.{Engine}
use tower_guard_rs.Layer.{GuardLayer}
use tower_guard_rs.Layer.Build.{StageBuilder, ScanFn, new, layered}
use tower_guard_rs.Layer.Builders.{default_config}
use tower_guard_rs.Request.{Parts}
use tower_guard_rs.Response.{Response, passthrough, map_body}
use tower_guard_rs.Service.Buffer.{Frame}
use tower_guard_rs.Service.Buffer.Laws.{readable, has_error}
use tower_guard_rs.Service.Respond.{Handler, ok}
use tower_guard_rs.Service.Call.{Service, produced, call}
use tower_guard_rs.Service.Call.Fresh.{limits_of, IsOpen, IsClean}
use tower_guard_rs.Service.Call.Transparent.{call-fresh}
use tower_guard_rs.Examples.{is_route, plain_response, plain_response_bytes}

module _ (en : Engine) (full : Text → en.InnerBody) where
  -- The body that the guard hands on is read whole.
  unfoldable pub simple_answer : Parts en → Text → Response en en.InnerBody
  unfolding plain_response plain_response_bytes text_eq
  simple_answer parts bytes =
      if is_route en (codes "GET") (codes "/") parts
      then plain_response en full 200 (codes "tower-guard-rs simple app\n")
      else if is_route en (codes "GET") (codes "/search") parts
      then plain_response en full 200 (codes "search ok\n")
      else if is_route en (codes "POST") (codes "/echo") parts
      then plain_response_bytes en full 200 bytes
      else plain_response en full 404 (codes "not found\n")

  unfoldable pub router : Service en
  unfolding simple_answer
  router parts bytes w = (produced (simple_answer parts bytes), w)

  -- The health path is answered before the guard sees the request.
  unfoldable pub simple_call : GuardLayer en → Parts en → List Frame → Handler en (Unit {0})
  unfolding router call plain_response text_eq
  simple_call guarded parts frames w =
      if text_eq parts.path (codes "/health")
      then (stop (ok (map_body en passthrough (plain_response en full 200 (codes "ok\n")))), w)
      else call en guarded router parts frames w

  -- `GuardLayer::new(default_config()).layer(Router)`.
  unfoldable pub main_layer : ScanFn en → StageBuilder en → GuardLayer en
  unfolding new default_config layered
  main_layer scan_request builder = layered en (new en scan_request (default_config en)) builder

  -- The routes with no guard around them.
  abbrev pub site : Parts en → Text → Response en en.InnerBody
  site parts bytes =
      if text_eq parts.path (codes "/health")
      then plain_response en full 200 (codes "ok\n")
      else simple_answer parts bytes

  -- The guarded application answers a clean request as its routes alone do, with the whole body that the
  -- client sent, and does nothing else: where every scan is clean, the rate-limit stage, asked without a
  -- finding, blocks nobody and leaves the world alone, the request carries no route configuration, and its body is within the default cap of 262144 bytes and does not
  -- break.
  pub simple_call-site :
      (scan_request : ScanFn en) (builder : StageBuilder en) (parts : Parts en)
      (frames : List Frame) (w : en.World)
      → parts.route_config ≡ none
      → IsClean en scan_request
      → IsOpen en none (limits_of en scan_request (default_config en) builder)
      → length (readable frames) ≤ 262144
      → has_error frames ≡ false
      → simple_call (main_layer scan_request builder) parts frames w
        ≡ (stop (ok (map_body en passthrough (site parts (readable frames)))), w)
  unfolding simple_call main_layer router
  simple_call-site scan_request builder parts frames w bare clean_scan opened bound sound =
      elim (Bool-cases (text_eq parts.path (codes "/health"))) [
        | inl health ↦ rw health refl
        | inr other ↦ rw other (
            call-fresh en scan_request (default_config en) builder router parts frames w bare
              clean_scan opened (unfold default_config in bound) sound)
      ]
