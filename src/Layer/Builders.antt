-- ===== src/Layer/Builders.antt =====
-- The builders of `GuardLayer` in `src/lib.rs`: each sets its own field.
use tower_guard_rs.Base.{ℕ, Text, codes, Bool, true, Option, some, List}
use tower_guard_rs.Engine.{Engine, ResponseBits}
use tower_guard_rs.Engine.Stages.{
  IpGateConfig, EmergencyModeStage, HttpsEnforcementStage, RequestLoggingStage, HeadersAuthStage,
  ReferrerStage, CustomChecksStage, TimeWindowStage, GeoStage, CloudProviderStage, UserAgentStage,
  ResponseProcessor,
}
use tower_guard_rs.Route.{RouteConfig}
use tower_guard_rs.Layer.{Modified, GuardLayer, DetectConfig, ObservabilityConfig}
use tower_guard_rs.Layer.Build.{ScanFn, new}

module _ (en : Engine) where
  unfoldable pub default_config : DetectConfig en
  default_config = record {
    max_content_length = 10000;
    max_full_scan_bytes = 262144;
    preserve_attack_patterns = true;
    semantic_threshold = en.float (codes "0.7");
    threat_score_threshold = en.float (codes "1.0");
    binary_min_run_length = 16;
    max_scan_values = 512;
    max_scan_chars = 65536;
    max_json_depth = 32;
  }

  unfoldable pub with_defaults : ScanFn en → GuardLayer en
  unfolding new default_config
  with_defaults scan_request = new en scan_request default_config

  module _ (layer : GuardLayer en) where
    abbrev pub with_penetration_detection : Bool → GuardLayer en
    with_penetration_detection enabled = record layer { penetration_detection_enabled = enabled }

    abbrev pub with_exclude_paths : List Text → GuardLayer en
    with_exclude_paths paths = record layer { exclude_paths = paths }

    abbrev pub with_body_cap : ℕ → GuardLayer en
    with_body_cap body_cap = record layer { body_cap = body_cap }

    abbrev pub with_ip_gate : IpGateConfig en → GuardLayer en
    with_ip_gate ip_gate = record layer { ip_gate = some ip_gate }

    abbrev pub with_rate_limiting : en.RateLimiter → GuardLayer en
    with_rate_limiting limiter = record layer { rate_limiter = some limiter }

    abbrev pub with_route_tiers : (Text → Option en.RouteRateLimits) → GuardLayer en
    with_route_tiers resolver = record layer { route_tiers = some resolver }

    abbrev pub with_route_configs : (Text → Text → Option (RouteConfig en)) → GuardLayer en
    with_route_configs resolver = record layer { route_configs = some resolver }

    abbrev pub with_geo_handler : en.GeoIpHandler → GuardLayer en
    with_geo_handler handler = record layer { geo_handler = some handler }

    abbrev pub with_event_bus : en.SecurityEventBus → GuardLayer en
    with_event_bus bus = record layer { events = some bus }

    abbrev pub with_observability : ObservabilityConfig en → GuardLayer en
    with_observability observability = record layer { observability = some observability }

    abbrev pub with_on_block : en.OnBlockHook → GuardLayer en
    with_on_block hook = record layer { on_block = some hook }

    abbrev pub with_custom_response_modifier :
        (ResponseBits → en.World → Modified × en.World) → GuardLayer en
    with_custom_response_modifier modifier = record layer { response_modifier = some modifier }

    abbrev pub with_on_error :
        (Text → Text → List (Text × Text) → en.World → en.World) → GuardLayer en
    with_on_error hook = record layer { on_error = some hook }

    abbrev pub with_custom_error_responses : List (ℕ × Text) → GuardLayer en
    with_custom_error_responses responses = record layer { custom_error_responses = responses }

    abbrev pub with_passive_mode : Bool → GuardLayer en
    with_passive_mode passive_mode = record layer { passive_mode = passive_mode }

    abbrev pub with_distributed_ban_store : en.BanStore → GuardLayer en
    with_distributed_ban_store store = record layer { distributed_ban_store = some store }

    abbrev pub with_detection_exclusions : en.DetectionExclusionConfig → GuardLayer en
    with_detection_exclusions exclusions = record layer { detection_exclusions = some exclusions }

    abbrev pub with_emergency_mode : EmergencyModeStage en → GuardLayer en
    with_emergency_mode stage = record layer { emergency_mode = some stage }

    abbrev pub with_https_enforcement : HttpsEnforcementStage en → GuardLayer en
    with_https_enforcement stage = record layer { https_enforcement = some stage }

    abbrev pub with_request_logging : RequestLoggingStage en → GuardLayer en
    with_request_logging stage = record layer { request_logging = some stage }

    abbrev pub with_headers_auth : HeadersAuthStage en → GuardLayer en
    with_headers_auth stage = record layer { headers_auth = some stage }

    abbrev pub with_referrer_gate : ReferrerStage en → GuardLayer en
    with_referrer_gate stage = record layer { referrer_gate = some stage }

    abbrev pub with_custom_checks : CustomChecksStage en → GuardLayer en
    with_custom_checks stage = record layer { custom_checks = some stage }

    abbrev pub with_time_window_gate : TimeWindowStage en → GuardLayer en
    with_time_window_gate stage = record layer { time_window_gate = some stage }

    abbrev pub with_geo_blocking : GeoStage en → GuardLayer en
    with_geo_blocking stage = record layer { geo_blocking = some stage }

    abbrev pub with_cloud_provider : CloudProviderStage en → GuardLayer en
    with_cloud_provider stage = record layer { cloud_provider = some stage }

    abbrev pub with_user_agent : UserAgentStage en → GuardLayer en
    with_user_agent stage = record layer { user_agent = some stage }

    abbrev pub with_response_processor : ResponseProcessor en → GuardLayer en
    with_response_processor stage = record layer { response_processor = some stage }

    -- The violation counters start empty.
    abbrev pub with_ip_banning : en.IpBanManager → en.IpBanConfig → GuardLayer en
    with_ip_banning manager config = record layer {
      ban_state = some (record { manager = manager; counters = en.new_counters; config = config });
    }

    abbrev pub with_distributed_store : en.SlidingWindowStore → Text → Bool → GuardLayer en
    with_distributed_store store prefix fail_open = record layer {
      distributed = some (store, prefix, fail_open);
    }

    abbrev pub with_cloud_refresh_scheduler :
        en.CloudRefreshScheduler → en.CloudIpTable → GuardLayer en
    with_cloud_refresh_scheduler scheduler table = record layer {
      cloud_refresh = some (scheduler, table);
    }
