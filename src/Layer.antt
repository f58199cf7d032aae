-- ===== src/Layer.antt =====
-- `GuardLayer` of `src/lib.rs`: the configuration that the service reads.
pub mod Build
pub mod Builders
pub mod Config
use tower_guard_rs.Base.{ℕ, Text, Bool, Option, List}
use tower_guard_rs.Engine.{Engine, RequestSurfaces, RequestScanVerdict, ResponseBits}
use tower_guard_rs.Engine.Stages.{
  IpGateConfig, EmergencyModeStage, HttpsEnforcementStage, RequestLoggingStage, HeadersAuthStage,
  ReferrerStage, TimeWindowStage, CustomChecksStage, GeoStage, CloudProviderStage, UserAgentStage,
  RateLimitStage, ResponseProcessor,
}
use tower_guard_rs.Route.{RouteConfig}

-- What a response modifier leaves: the view, with all that it has written into it, and whether it panicked.
pub record Modified : Type 0 where
  pub bits : ResponseBits
  pub is_err : Bool

module _ (en : Engine) where
  -- The engine's `DetectConfig`; the two floating-point thresholds are opaque.
  pub record DetectConfig : Type 0 where
    pub max_content_length : ℕ
    pub max_full_scan_bytes : ℕ
    pub preserve_attack_patterns : Bool
    pub semantic_threshold : en.F64
    pub threat_score_threshold : en.F64
    pub binary_min_run_length : ℕ
    pub max_scan_values : ℕ
    pub max_scan_chars : ℕ
    pub max_json_depth : ℕ

  pub record BanState : Type 0 where
    pub manager : en.IpBanManager
    pub counters : en.ViolationCounters
    pub config : en.IpBanConfig

  -- `ObservabilityConfig`, by the fields that the service reads.
  pub record ObservabilityConfig : Type 0 where
    pub log_suspicious_level : Option en.LogLevel
    pub log_request_level : Option en.LogLevel
    pub log_country_check_level : Option en.LogLevel
    pub muted_check_logs : Option (List Text)
    pub sensitive : en.SensitiveNames

  -- A scan that panics gives `none`.
  pub record GuardLayer : Type 0 where
    pub config : DetectConfig
    pub body_cap : ℕ
    pub ip_gate : Option (IpGateConfig en)
    pub rate_limiter : Option en.RateLimiter
    pub ban_state : Option BanState
    pub route_tiers : Option (Text → Option en.RouteRateLimits)
    pub route_configs : Option (Text → Text → Option (RouteConfig en))
    pub geo_handler : Option en.GeoIpHandler
    pub events : Option en.SecurityEventBus
    pub observability : Option ObservabilityConfig
    pub on_block : Option en.OnBlockHook
    pub response_modifier : Option (ResponseBits → en.World → Modified × en.World)
    pub on_error : Option (Text → Text → List (Text × Text) → en.World → en.World)
    pub custom_error_responses : List (ℕ × Text)
    pub passive_mode : Bool
    pub distributed : Option (en.SlidingWindowStore × Text × Bool)
    pub distributed_ban_store : Option en.BanStore
    pub detection_exclusions : Option en.DetectionExclusionConfig
    pub emergency_mode : Option (EmergencyModeStage en)
    pub https_enforcement : Option (HttpsEnforcementStage en)
    pub request_logging : Option (RequestLoggingStage en)
    pub headers_auth : Option (HeadersAuthStage en)
    pub referrer_gate : Option (ReferrerStage en)
    pub custom_checks : Option (CustomChecksStage en)
    pub time_window_gate : Option (TimeWindowStage en)
    pub geo_blocking : Option (GeoStage en)
    pub cloud_provider : Option (CloudProviderStage en)
    pub user_agent : Option (UserAgentStage en)
    pub response_processor : Option (ResponseProcessor en)
    pub exclude_paths : List Text
    pub penetration_detection_enabled : Bool
    pub scan_fn : RequestSurfaces → en.ResolvedExclusions → DetectConfig → Option RequestScanVerdict
    pub stage : Option (RateLimitStage en)
    pub cloud_refresh : Option (en.CloudRefreshScheduler × en.CloudIpTable)
