-- ===== src/Layer/Build/Installed.antt =====
-- The stage of a service that `GuardLayer::layer` of `src/lib.rs` has built.
use tower_guard_rs.Base.{none, some, Option-cases, ◌⊎◌, inl, inr, ◌≡◌, refl}
use tower_guard_rs.Engine.{Engine}
use tower_guard_rs.Engine.Stages.{RateLimitStage}
use tower_guard_rs.Layer.{GuardLayer}
use tower_guard_rs.Layer.Build.{StageBuilder, build_stage-passive, build_stage, layered}

module _ (en : Engine) (layer : GuardLayer en) (builder : StageBuilder en) where
  -- A wrapped service always has its stage: the one that the layer had, or, on a layer that had none, one
  -- that is passive exactly where the layer is.
  pub layered-stage :
      (stage : RateLimitStage en) × ((layered en layer builder).stage ≡ some stage)
      × ((layer.stage ≡ some stage)
          ⊎ ((layer.stage ≡ none) × (stage.passive_mode ≡ layer.passive_mode)))
  unfolding layered
  layered-stage = elim (Option-cases (layer.stage)) [
    | inl off ↦ (
      build_stage en layer builder,
      rw (off, layered) refl,
      inr (off, build_stage-passive en layer builder),
    )
    | inr (s, on) ↦ (s, rw (on, layered) on, inl on)
  ]

  pub layered-exclude_paths : (layered en layer builder).exclude_paths ≡ layer.exclude_paths
  unfolding layered
  layered-exclude_paths = elim (Option-cases (layer.stage)) [
    | inl off ↦ rw off refl
    | inr (s, on) ↦ rw on refl
  ]
