-- ===== src/Layer/Build.antt =====
-- The construction of a layer in `src/lib.rs`: `GuardLayer::new`, the rate-limit stage
-- that `Layer::layer` builds, and the operations that reset and refresh.
pub mod Installed
use tower_guard_rs.Base.{
  ℕ, Text, Bool, true, false, Option, none, some, List, [], map_or, map_option, is_some, ◌||◌,
  if◌then◌else◌, ◌≡◌, ap, sym, ◌∙◌,
}
use mathlib.Core.Option.{some-injective, some-ne-none}
use tower_guard_rs.Engine.{Engine, RequestSurfaces, RequestScanVerdict, ResponseBits}
use tower_guard_rs.Engine.Stages.{
  RateLimitStage, IpGateConfig, EmergencyModeStage, HttpsEnforcementStage, RequestLoggingStage,
  HeadersAuthStage, ReferrerStage, CustomChecksStage, TimeWindowStage, GeoStage, CloudProviderStage,
  UserAgentStage, ResponseProcessor,
}
use tower_guard_rs.Route.{RouteConfig}
use tower_guard_rs.Layer.{GuardLayer, DetectConfig, BanState, ObservabilityConfig}

pub record AgentStats : Type 0 where
  pub enabled : Bool
  pub degraded : Bool

module _ (en : Engine) where
  -- What `build_stage` hands to the engine's `RateLimitStageBuilder`.
  pub record StageSettings : Type 0 where
    pub rate_limit : en.RateLimitConfig
    pub ip_ban : en.IpBanConfig
    pub passive_mode : Bool
    pub custom_error_responses : List (ℕ × Text)
    pub limiter : Option en.RateLimiter
    pub ban_manager : Option (en.IpBanManager × en.ViolationCounters)
    pub route_resolver : Option (Text → Option en.RouteRateLimits)
    pub geo_handler : Option en.GeoIpHandler
    pub events : Option en.SecurityEventBus
    pub observability : Option (ObservabilityConfig en)
    pub on_block : Option en.OnBlockHook
    pub distributed_store : Option (en.SlidingWindowStore × Text × Bool)
    pub distributed_ban_store : Option en.BanStore

  -- The engine's builder, a parameter. It gives a stage, as the layer sets both of the fields that it
  -- needs, and the stage keeps the mode that it was configured with.
  pub record StageBuilder : Type 0 where
    pub build : StageSettings → Option (RateLimitStage en)
    pub builds :
        (s : StageSettings)
        → (stage : RateLimitStage en) × (build s ≡ some stage)
          × (stage.passive_mode ≡ s.passive_mode)

  -- `expect` on a stage that is there.
  abbrev pub built :
      (s : StageSettings) (o : Option (RateLimitStage en))
      → (stage : RateLimitStage en) × (o ≡ some stage) × (stage.passive_mode ≡ s.passive_mode)
      → RateLimitStage en
  built s none (stage, missing, kept) = absurd (some-ne-none stage (sym missing))
  built s (some stage) there = stage

  built-passive :
      (s : StageSettings) (o : Option (RateLimitStage en))
      (there : (stage : RateLimitStage en) × (o ≡ some stage)
        × (stage.passive_mode ≡ s.passive_mode))
      → (built s o there).passive_mode ≡ s.passive_mode
  built-passive s none (stage, missing, kept) = absurd (some-ne-none stage (sym missing))
  built-passive s (some stage) (other, same, kept) =
      ap (λ (t : RateLimitStage en). t.passive_mode) (some-injective stage other same) ∙ kept

  -- The engine's `scan_request`, the parameter that every production layer stores.
  abbrev pub ScanFn : Type 0
  ScanFn = RequestSurfaces → en.ResolvedExclusions → DetectConfig en → Option RequestScanVerdict

  unfoldable pub new : ScanFn → DetectConfig en → GuardLayer en
  new scan_request config = record {
    config = config;
    body_cap = config.max_full_scan_bytes;
    ip_gate = none;
    rate_limiter = none;
    ban_state = none;
    route_tiers = none;
    route_configs = none;
    geo_handler = none;
    events = none;
    observability = none;
    on_block = none;
    response_modifier = none;
    on_error = none;
    custom_error_responses = [];
    passive_mode = false;
    distributed = none;
    distributed_ban_store = none;
    detection_exclusions = none;
    emergency_mode = none;
    https_enforcement = none;
    request_logging = none;
    headers_auth = none;
    referrer_gate = none;
    custom_checks = none;
    time_window_gate = none;
    geo_blocking = none;
    cloud_provider = none;
    user_agent = none;
    response_processor = none;
    exclude_paths = [];
    penetration_detection_enabled = true;
    scan_fn = scan_request;
    stage = none;
    cloud_refresh = none;
  }

  module _ (layer : GuardLayer en) where
    abbrev stage_settings : StageSettings
    stage_settings = record {
      rate_limit = map_or en.rate_limiting_off en.limiter_config layer.rate_limiter;
      ip_ban = map_or en.ip_banning_off (λ (b : BanState en). b.config) layer.ban_state;
      passive_mode = layer.passive_mode;
      custom_error_responses = layer.custom_error_responses;
      limiter = layer.rate_limiter;
      ban_manager = map_option (λ (b : BanState en). (b.manager, b.counters)) layer.ban_state;
      route_resolver = layer.route_tiers;
      geo_handler = layer.geo_handler;
      events = layer.events;
      observability = layer.observability;
      on_block = layer.on_block;
      distributed_store = layer.distributed;
      distributed_ban_store = layer.distributed_ban_store;
    }

    unfoldable pub build_stage : StageBuilder → RateLimitStage en
    build_stage builder =
        built stage_settings (builder.build stage_settings) (builder.builds stage_settings)

    pub build_stage-passive :
        (builder : StageBuilder) → (build_stage builder).passive_mode ≡ layer.passive_mode
    unfolding build_stage
    build_stage-passive builder = built-passive stage_settings _ (builder.builds stage_settings)

    unfoldable pub rate_limit_stage : StageBuilder → Option (RateLimitStage en)
    unfolding build_stage
    rate_limit_stage builder = elim (layer.stage) [
      | some stage ↦ some stage
      | none ↦
          if is_some layer.rate_limiter || is_some layer.ban_state
          then some (build_stage builder)
          else none
    ]

    -- The layer that `Layer::layer` puts into the service.
    unfoldable pub layered : StageBuilder → GuardLayer en
    unfolding build_stage
    layered builder = elim (layer.stage) [
      | some stage ↦ layer
      | none ↦ record layer { stage = some (build_stage builder) }
    ]

    unfoldable pub refresh_cloud_ip_ranges : en.World → Bool × en.World
    refresh_cloud_ip_ranges w =
        map_or (false, w)
          (λ (r : en.CloudRefreshScheduler × en.CloudIpTable). en.schedule_refresh r.0 r.1 w)
          layer.cloud_refresh

    unfoldable pub reset : en.World → en.World
    reset w = map_or w (λ limiter. en.reset_limiter limiter w) layer.rate_limiter

    unfoldable pub agent_stats : AgentStats
    agent_stats = record { enabled = false; degraded = false }
