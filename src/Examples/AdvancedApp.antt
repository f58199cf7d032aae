-- ===== src/Examples/AdvancedApp.antt =====
-- `examples/advanced_app/src/main.rs`: two routers behind two guards, whose configuration comes from the
-- environment, and a health path in front of both.
pub mod Environment
pub mod Site
use tower_guard_rs.Base.{Text, codes, Bool, ◌&&◌, List, stop, text_eq, starts_with, if◌then◌else◌}
use tower_guard_rs.Engine.{Engine}
use tower_guard_rs.Layer.{GuardLayer}
use tower_guard_rs.Request.{Parts}
use tower_guard_rs.Response.{Response, passthrough, map_body}
use tower_guard_rs.Service.Buffer.{Frame}
use tower_guard_rs.Service.Respond.{Handler, ok}
use tower_guard_rs.Service.Call.{Service, produced, call}
use tower_guard_rs.Examples.{is_route, plain_response, plain_response_bytes}

module _ (en : Engine) where
  pub record App : Type 0 where
    pub general : GuardLayer en
    pub admin : GuardLayer en

  module _ (full : Text → en.InnerBody) where
    -- The body that the guard hands on is read whole.
    unfoldable pub general_answer : Parts en → Text → Response en en.InnerBody
    unfolding plain_response plain_response_bytes text_eq
    general_answer parts bytes =
        if is_route en (codes "GET") (codes "/") parts
        then plain_response en full 200 (codes "tower-guard-rs advanced app\n")
        else if is_route en (codes "GET") (codes "/search") parts
        then plain_response en full 200 (codes "search ok\n")
        else if is_route en (codes "POST") (codes "/echo") parts
        then plain_response_bytes en full 200 bytes
        else plain_response en full 404 (codes "not found\n")

    unfoldable pub general_router : Service en
    unfolding general_answer
    general_router parts bytes w = (produced (general_answer parts bytes), w)

    unfoldable pub admin_answer : Parts en → Response en en.InnerBody
    unfolding plain_response text_eq
    admin_answer parts =
        if is_route en (codes "GET") (codes "/admin/stats") parts
        then plain_response en full 200 (codes "stats\n")
        else plain_response en full 404 (codes "not found\n")

    unfoldable pub admin_router : Service en
    unfolding admin_answer
    admin_router parts bytes w = (produced (admin_answer parts), w)

    -- The health path is answered before any guard sees the request.
    unfoldable pub advanced_call : App → Parts en → List Frame → Handler en (Unit {0})
    unfolding general_router admin_router call plain_response text_eq starts_with
    advanced_call app parts frames w =
        if text_eq parts.path (codes "/health")
        then (stop (ok (map_body en passthrough (plain_response en full 200 (codes "ok\n")))), w)
        else if starts_with parts.path (codes "/admin")
        then call en app.admin admin_router parts frames w
        else call en app.general general_router parts frames w
