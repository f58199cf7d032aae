-- ===== src/Layer/Config/Used.antt =====
-- A service whose layer comes from `GuardLayer::from_security_config` of `src/lib.rs`: its mode and its
-- excluded paths are the configuration's.
use tower_guard_rs.Base.{true, some, List, [], contains, next, stop, inl, inr, ◌≡◌, ap, ◌∙◌}
use tower_guard_rs.Engine.{Engine}
use tower_guard_rs.Engine.Stages.{RateLimitStage}
use tower_guard_rs.Layer.{GuardLayer}
use tower_guard_rs.Layer.Build.{ScanFn, StageBuilder, layered}
use tower_guard_rs.Layer.Build.Installed.{layered-stage, layered-exclude_paths}
use tower_guard_rs.Layer.Config.{Constructors, SecurityConfig}
use tower_guard_rs.Layer.Config.Whole.{from_security_config}
use tower_guard_rs.Layer.Config.Described.{described}
use tower_guard_rs.Layer.Config.Wired.{from_security_config-described}
use tower_guard_rs.Request.{Parts, extract}
use tower_guard_rs.Service.Buffer.{Frame}
use tower_guard_rs.Service.Call.{Service, finish_forwarded, call}
use tower_guard_rs.Service.Call.Excluded.{call-excluded}

module _ (en : Engine) (lib : Constructors en) (config : SecurityConfig en)
    (scan_request : ScanFn en) (w : en.World) {layer : GuardLayer en} {v : en.World}
    (builder : StageBuilder en) where
  -- The service of an accepted configuration has a rate-limit stage, which is passive exactly where the
  -- configuration is.
  pub configured-passive_mode :
      from_security_config en lib config scan_request w ≡ (next layer, v)
      → (stage : RateLimitStage en) × ((layered en layer builder).stage ≡ some stage)
        × (stage.passive_mode ≡ config.passive_mode)
  unfolding described
  configured-passive_mode accepted =
      let (made, _, e) = from_security_config-described en lib config scan_request w accepted in
      let (stage, installed, cases) = layered-stage en layer builder in
      (
        stage,
        installed,
        elim cases [
          | inl own ↦ let off = ap (λ l. l.stage) e in cc
          | inr (_, passive) ↦ passive ∙ ap (λ l. l.passive_mode) e
        ],
      )

  -- On a path that an accepted configuration excludes no check runs: the wrapped service is called at
  -- once with the request's parts and an empty body, whatever body the client sent, and its answer goes
  -- through the response-side pass of the configured layer.
  pub configured-call-excluded :
      (inner : Service en) (parts : Parts en) (frames : List Frame) (u : en.World)
      → from_security_config en lib config scan_request w ≡ (next layer, v)
      → contains config.exclude_paths parts.path ≡ true
      → call en (layered en layer builder) inner parts frames u ≡ (
          let (answer, x) = inner parts [] u in
          let (reply, y) =
            finish_forwarded en (layered en layer builder) (extract en parts) answer x in
          (stop reply, y))
  unfolding described
  configured-call-excluded inner parts frames u accepted excluded =
      let (made, _, e) = from_security_config-described en lib config scan_request w accepted in
      let paths = layered-exclude_paths en layer builder ∙ ap (λ l. l.exclude_paths) e in
      call-excluded en (layered en layer builder) inner parts frames u
        (ap (λ p. contains p parts.path) paths ∙ excluded)
