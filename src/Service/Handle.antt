-- ===== src/Service/Handle.antt =====
-- `GuardService` of `src/service.rs` itself: its construction by `Layer::layer` of `src/lib.rs`, its
-- readiness and its maintenance operations.
use tower_guard_rs.Base.{Bool, Option-cases, inl, inr, ◌≡◌, refl}
use tower_guard_rs.Engine.{Engine}
use tower_guard_rs.Layer.{GuardLayer}
use tower_guard_rs.Layer.Build.{AgentStats, StageBuilder, layered}
use tower_guard_rs.Layer.Build

module _ (en : Engine) where
  pub record GuardService (S : Type 0) : Type 0 where
    pub inner : S
    pub layer : GuardLayer en

  module _ {S : Type 0} where
    abbrev pub new : S → GuardLayer en → GuardService S
    new inner layer = record { inner = inner; layer = layer }

    -- `Layer::layer`.
    unfoldable pub layer_service : GuardLayer en → StageBuilder en → S → GuardService S
    unfolding layered
    layer_service layer builder inner = new inner (layered en layer builder)

    -- The wrapped service's own readiness.
    unfoldable pub poll_ready :
        {P : Type 0} → (S → en.World → P × en.World) → GuardService S → en.World → P × en.World
    poll_ready inner_ready service w = inner_ready service.inner w

    unfoldable pub reset : GuardService S → en.World → en.World
    unfolding tower_guard_rs.Layer.Build.reset
    reset service w = tower_guard_rs.Layer.Build.reset en service.layer w

    unfoldable pub refresh_cloud_ip_ranges : GuardService S → en.World → Bool × en.World
    unfolding tower_guard_rs.Layer.Build.refresh_cloud_ip_ranges
    refresh_cloud_ip_ranges service w =
        tower_guard_rs.Layer.Build.refresh_cloud_ip_ranges en service.layer w

    unfoldable pub agent_stats : GuardService S → AgentStats
    unfolding tower_guard_rs.Layer.Build.agent_stats
    agent_stats service = tower_guard_rs.Layer.Build.agent_stats en service.layer

    -- A service resets and refreshes what the layer that wrapped it does.
    layer_service-maintains :
        (layer : GuardLayer en) (builder : StageBuilder en) (inner : S) (w : en.World)
        → (reset (layer_service layer builder inner) w
            ≡ tower_guard_rs.Layer.Build.reset en layer w)
          × (refresh_cloud_ip_ranges (layer_service layer builder inner) w
              ≡ tower_guard_rs.Layer.Build.refresh_cloud_ip_ranges en layer w)
    unfolding reset refresh_cloud_ip_ranges layer_service layered tower_guard_rs.Layer.Build.reset
        tower_guard_rs.Layer.Build.refresh_cloud_ip_ranges
    layer_service-maintains layer builder inner w = elim (Option-cases (layer.stage)) [
      | inl off ↦ (rw off refl, rw off refl)
      | inr (s, on) ↦ (rw on refl, rw on refl)
    ]
