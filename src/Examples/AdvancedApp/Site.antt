-- ===== src/Examples/AdvancedApp/Site.antt =====
-- The application of `examples/advanced_app/src/main.rs` on clean requests.
use tower_guard_rs.Base.{
  ◌≤◌, Text, codes, false, none, List, length, stop, text_eq, starts_with, if◌then◌else◌,
  Bool-cases, inl, inr, ◌≡◌, refl, ap, ◌∙◌,
}
use tower_guard_rs.Engine.{Engine}
use tower_guard_rs.Layer.Build.{StageBuilder, ScanFn, new, layered}
use tower_guard_rs.Request.{Parts}
use tower_guard_rs.Response.{Response, passthrough, map_body}
use tower_guard_rs.Service.Buffer.{Frame}
use tower_guard_rs.Service.Buffer.Laws.{readable, has_error}
use tower_guard_rs.Service.Respond.{ok}
use tower_guard_rs.Service.Call.Fresh.{fresh, limits_of, IsOpen, IsClean}
use tower_guard_rs.Service.Call.Transparent.{call-fresh}
use tower_guard_rs.Examples.{plain_response}
use tower_guard_rs.Examples.AdvancedApp.{
  general_answer, general_router, admin_answer, admin_router, advanced_call,
}
use tower_guard_rs.Examples.AdvancedApp.Environment.{
  Environment, env_usize, env_config, admin_config, app_body_cap, build_app,
}

module _ (en : Engine) (env : Environment en) (scan_request : ScanFn en)
    (builder : StageBuilder en) where
  -- With no cap of its own the body cap is the scan cap, which both trees share.
  app_body_cap-unset :
      env.var (codes "GUARD_BODY_CAP") ≡ none
      → app_body_cap en env ≡ (env_config en env).max_full_scan_bytes
  unfolding app_body_cap env_usize
  app_body_cap-unset unset = rw unset refl

  build_app-unset :
      env.var (codes "GUARD_BODY_CAP") ≡ none
      → build_app en env scan_request builder ≡ record {
        general = fresh en scan_request (env_config en env) builder;
        admin = fresh en scan_request (admin_config en env) builder;
      }
  unfolding build_app new layered admin_config
  build_app-unset unset = rw (app_body_cap-unset unset) refl

  module _ (full : Text → en.InnerBody) where
    -- The routes with no guard around them.
    abbrev pub site : Parts en → Text → Response en en.InnerBody
    site parts bytes =
        if text_eq parts.path (codes "/health")
        then plain_response en full 200 (codes "ok\n")
        else if starts_with parts.path (codes "/admin")
        then admin_answer en full parts
        else general_answer en full parts bytes

    -- The application answers a clean request as its routes alone do, with the whole body that the client
    -- sent, and does nothing else: where no body cap is set, every scan is clean, the rate-limit stages
    -- of both trees, asked without a finding, block nobody and leave the world alone, the request carries
    -- no route configuration, and its body is within the configured scan cap and does not break.
    pub advanced-site :
        (parts : Parts en) (frames : List Frame) (w : en.World)
        → env.var (codes "GUARD_BODY_CAP") ≡ none
        → parts.route_config ≡ none
        → IsClean en scan_request
        → IsOpen en none (limits_of en scan_request (env_config en env) builder)
        → IsOpen en none (limits_of en scan_request (admin_config en env) builder)
        → length (readable frames) ≤ (env_config en env).max_full_scan_bytes
        → has_error frames ≡ false
        → advanced_call en full (build_app en env scan_request builder) parts frames w
          ≡ (stop (ok (map_body en passthrough (site parts (readable frames)))), w)
    unfolding advanced_call general_router admin_router admin_config
    advanced-site parts frames w unset bare clean_scan general_open admin_open bound sound =
        ap (λ app. advanced_call en full app parts frames w) (build_app-unset unset)
        ∙ elim (Bool-cases (text_eq parts.path (codes "/health"))) [
          | inl health ↦ rw health refl
          | inr other ↦ elim (Bool-cases (starts_with parts.path (codes "/admin"))) [
            | inl inside ↦
                rw (other, inside)
                  (call-fresh en scan_request (admin_config en env) builder (admin_router en full)
                    parts frames w bare clean_scan admin_open bound sound)
            | inr outside ↦
                rw (other, outside)
                  (call-fresh en scan_request (env_config en env) builder (general_router en full)
                    parts frames w bare clean_scan general_open bound sound)
          ]
        ]
