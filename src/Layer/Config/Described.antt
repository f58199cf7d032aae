-- ===== src/Layer/Config/Described.antt =====
-- A description of what `GuardLayer::from_security_config` of `src/lib.rs` builds: every field of the
-- layer from the configuration and from the values that the engine's constructors made.
use tower_guard_rs.Base.{
  Bool, true, false, not, ◌||◌, is_some, if◌then◌else◌, Option, none, some, is_empty, unwrap_or,
  map_option, [], ◌≡◌,
}
use tower_guard_rs.Engine.{Engine}
use tower_guard_rs.Engine.Stages.{
  IpGateConfig, EmergencyModeStage, HttpsEnforcementStage, UserAgentStage, ResponseProcessor,
}
use tower_guard_rs.Layer.{GuardLayer, BanState, DetectConfig}
use tower_guard_rs.Layer.Build.{ScanFn}
use tower_guard_rs.Layer.Config.{
  from_ip_gate, from_rate_limit, from_user_agent, ok, HttpsSettings, EmergencySettings,
  UserAgentSettings, ProcessorSettings, LogLevel, info, debug, warning, error, critical,
  Constructors, SecurityConfig,
}
use tower_guard_rs.Layer.Config.Steps.{
  Installs, Performs, Attempts, exclusions_of, logging_of, observability_of,
}

module _ (en : Engine) where
  -- The values that the engine's constructors made.
  pub record Made : Type 0 where
    pub ip_gate : Option (IpGateConfig en)
    pub rate_limiter : Option en.RateLimiter
    pub ban_manager : Option en.IpBanManager
    pub https_enforcement : HttpsEnforcementStage en
    pub emergency_mode : Option (EmergencyModeStage en)
    pub user_agent : Option (UserAgentStage en)
    pub response_processor : Option (ResponseProcessor en)

module _ (en : Engine) (lib : Constructors en) (config : SecurityConfig en) where
  -- The engine's log levels have the names of the configuration's.
  unfoldable pub level_of : LogLevel → en.LogLevel
  level_of info = lib.facade_info
  level_of debug = lib.facade_debug
  level_of warning = lib.facade_warning
  level_of error = lib.facade_error
  level_of critical = lib.facade_critical

  abbrev pub detection_settings : DetectConfig en
  detection_settings = record {
    max_content_length = config.detection_max_content_length;
    max_full_scan_bytes = config.detection_max_body_inspect_bytes;
    preserve_attack_patterns = config.detection_preserve_attack_patterns;
    semantic_threshold = config.detection_semantic_threshold;
    threat_score_threshold = config.detection_threat_score_threshold;
    binary_min_run_length = config.detection_binary_min_run_length;
    max_scan_values = config.detection_max_scan_values;
    max_scan_chars = config.detection_max_scan_chars;
    max_json_depth = config.detection_max_json_depth;
  }

  -- What a configuration asks for: a gate by any of its three lists, emergency mode by its switch or by
  -- its whitelist, a response processor by its headers, by CORS or by its rules.
  abbrev pub asks_gate : Bool
  asks_gate =
      is_some config.whitelist
      || not (is_empty config.blacklist)
      || not (is_empty config.exempt_ips)

  abbrev pub asks_emergency : Bool
  asks_emergency = config.emergency_mode || not (is_empty config.emergency_whitelist)

  abbrev pub asks_processor : Bool
  asks_processor =
      en.headers_enabled config.security_headers
      || config.enable_cors
      || not (is_empty config.global_behavior_rules)

  abbrev pub response_settings : en.IpBanManager → ProcessorSettings en
  response_settings manager = record {
    security_headers =
        if en.headers_enabled config.security_headers then some config.security_headers else none;
    cors =
        if config.enable_cors
        then some (
            lib.cors_config (record {
              enabled = true;
              allow_origins = config.cors_allow_origins;
              allow_methods = config.cors_allow_methods;
              allow_headers = config.cors_allow_headers;
              allow_credentials = config.cors_allow_credentials;
              max_age = config.cors_max_age;
            }))
        else none;
    global_behavior_rules = config.global_behavior_rules;
    ban_manager = manager;
    scan_response_body = config.behavior_scan_response_body;
    max_response_body_inspect_bytes = config.behavior_max_response_body_inspect_bytes;
    passive_mode = config.passive_mode;
  }

  abbrev pub https_settings : HttpsSettings
  https_settings = record {
    enforce_https = config.enforce_https;
    trust_x_forwarded_proto = config.trust_x_forwarded_proto;
    passive_mode = config.passive_mode;
  }

  abbrev pub emergency_settings : EmergencySettings
  emergency_settings = record {
    emergency_mode = config.emergency_mode;
    passive_mode = config.passive_mode;
    emergency_whitelist = config.emergency_whitelist;
  }

  abbrev pub user_agent_settings : en.UserAgentFilter → UserAgentSettings en
  user_agent_settings filter = record {
    blocked_user_agents = filter;
    ip_ban = config.ip_ban_config;
    passive_mode = config.passive_mode;
  }

  -- The user-agent stage: two constructors, one behind the other.
  abbrev pub InstallsAgents : Bool → Option (UserAgentStage en) → Type 0
  InstallsAgents false o = o ≡ none
  InstallsAgents true o =
      (filter : en.UserAgentFilter) × (stage : UserAgentStage en) × (lib.new_user_agent_filter
          config.blocked_user_agents
        ≡ ok filter)
      × (lib.build_user_agent (user_agent_settings filter) ≡ ok stage)
      × (o ≡ some stage)

  -- The processor, on a ban manager that is allocated for it.
  abbrev pub make_processor : en.World → ResponseProcessor en × en.World
  make_processor w =
      let (manager, u) = lib.new_ban_manager w in
      lib.new_response_processor (response_settings manager) u

  -- Each value is there exactly where the configuration asks for it, made from the configuration.
  pub record IsMade (made : Made en) : Type 0 where
    pub ip_gate :
        Installs asks_gate
          (lib.new_ip_gate (unwrap_or [] config.whitelist) config.blacklist config.exempt_ips)
          made.ip_gate
    pub rate_limiter :
        Attempts config.enable_rate_limiting
          (lib.new_rate_limiter
            (lib.rate_limit_config true config.rate_limit config.rate_limit_window))
          made.rate_limiter
    pub ban_manager : Performs config.enable_ip_banning lib.new_ban_manager made.ban_manager
    pub https_enforcement : lib.build_https https_settings ≡ ok made.https_enforcement
    pub emergency_mode :
        Installs asks_emergency (lib.build_emergency emergency_settings) made.emergency_mode
    pub user_agent : InstallsAgents (not (is_empty config.blocked_user_agents)) made.user_agent
    pub response_processor : Performs asks_processor (make_processor) made.response_processor

  abbrev pub ban_state_of : Option en.IpBanManager → Option (BanState en)
  ban_state_of = map_option (λ manager. record {
    manager = manager;
    counters = en.new_counters;
    config = config.ip_ban_config;
  })

  -- The layer, every field of it, over a map of the levels. What a host provides is not installed.
  unfoldable pub described : (LogLevel → en.LogLevel) → ScanFn en → Made en → GuardLayer en
  described levels scan_request made = record {
    config = detection_settings;
    body_cap = config.detection_max_body_inspect_bytes;
    ip_gate = made.ip_gate;
    rate_limiter = made.rate_limiter;
    ban_state = ban_state_of made.ban_manager;
    route_tiers = none;
    route_configs = none;
    geo_handler = none;
    events = none;
    observability = observability_of en lib config levels;
    on_block = config.on_block;
    response_modifier = none;
    on_error = none;
    custom_error_responses = config.custom_error_responses;
    passive_mode = config.passive_mode;
    distributed = none;
    distributed_ban_store = none;
    detection_exclusions = exclusions_of en lib config;
    emergency_mode = made.emergency_mode;
    https_enforcement = some made.https_enforcement;
    request_logging = logging_of en lib config levels;
    headers_auth = none;
    referrer_gate = none;
    custom_checks = none;
    time_window_gate = none;
    geo_blocking = none;
    cloud_provider = none;
    user_agent = made.user_agent;
    response_processor = made.response_processor;
    exclude_paths = config.exclude_paths;
    penetration_detection_enabled = config.enable_penetration_detection;
    scan_fn = scan_request;
    stage = none;
    cloud_refresh = none;
  }
