-- ===== src/Layer/Config/Wire.antt =====
-- `GuardLayer::from_security_config` of `src/lib.rs`, one definition for each of its blocks. `Err`
-- is the early return, and the allocations of shared state change the world.
use tower_guard_rs.Base.{
  Bool, true, not, ◌||◌, Option, none, some, [], is_empty, is_some, if◌then◌else◌, map_option,
  unwrap_or, Act, pure, return, perform, ◌>>=◌,
}
use tower_guard_rs.Engine.{Engine}
use tower_guard_rs.Layer.{GuardLayer, DetectConfig, ObservabilityConfig}
use tower_guard_rs.Layer.Build.{ScanFn, new}
use tower_guard_rs.Layer.Builders.{
  with_passive_mode, with_penetration_detection, with_exclude_paths, with_ip_gate,
  with_rate_limiting, with_ip_banning, with_https_enforcement, with_emergency_mode,
  with_custom_error_responses, with_on_block, with_detection_exclusions, with_request_logging,
  with_observability, with_user_agent,
}
use tower_guard_rs.Layer.Config.{
  Result, ok, err, LogLevel, info, debug, warning, error, critical, GuardConfigError, From,
  from_ip_gate, from_rate_limit, from_user_agent, Constructors, SecurityConfig,
}

module _ (en : Engine) (lib : Constructors en) where
  unfoldable pub map_log_level : LogLevel → en.LogLevel
  map_log_level info = lib.facade_info
  map_log_level debug = lib.facade_debug
  map_log_level warning = lib.facade_warning
  map_log_level error = lib.facade_error
  map_log_level critical = lib.facade_critical

  -- A function that returns `Result<A, GuardConfigError>`.
  abbrev pub Build : Type 0 → Type 0
  Build A = Act en.World (GuardConfigError lib.errors) A

  -- The operator `?`.
  abbrev pub attempt : {E A : Type 0} → From lib.errors E → Result E A → Build A
  attempt conversion (ok a) = pure a
  attempt conversion (err e) = return (conversion.from e)

module _ (en : Engine) (lib : Constructors en) (config : SecurityConfig en) where
  unfoldable pub detect_config : DetectConfig en
  detect_config = record {
    max_content_length = config.detection_max_content_length;
    max_full_scan_bytes = config.detection_max_body_inspect_bytes;
    preserve_attack_patterns = config.detection_preserve_attack_patterns;
    semantic_threshold = config.detection_semantic_threshold;
    threat_score_threshold = config.detection_threat_score_threshold;
    binary_min_run_length = config.detection_binary_min_run_length;
    max_scan_values = config.detection_max_scan_values;
    max_scan_chars = config.detection_max_scan_chars;
    max_json_depth = config.detection_max_json_depth;
  }

  unfoldable pub base : ScanFn en → GuardLayer en
  unfolding detect_config
  base scan_request =
      with_exclude_paths en
        (with_penetration_detection en
          (with_passive_mode en (new en scan_request detect_config) config.passive_mode)
          config.enable_penetration_detection)
        config.exclude_paths

  unfoldable pub restricts_ips : Bool
  restricts_ips =
      is_some config.whitelist
      || not (is_empty config.blacklist)
      || not (is_empty config.exempt_ips)

  unfoldable pub wire_ip_gate : GuardLayer en → Build en lib (GuardLayer en)
  unfolding restricts_ips
  wire_ip_gate layer =
      if restricts_ips
      then (do
        gate ←
            attempt en lib (from_ip_gate lib.errors)
              (lib.new_ip_gate (unwrap_or [] config.whitelist) config.blacklist config.exempt_ips)
        pure (with_ip_gate en layer gate))
      else pure layer

  unfoldable pub wire_rate_limiting : GuardLayer en → Build en lib (GuardLayer en)
  wire_rate_limiting layer =
      if config.enable_rate_limiting
      then (do
        made ← perform (
            lib.new_rate_limiter
              (lib.rate_limit_config true config.rate_limit config.rate_limit_window))
        limiter ← attempt en lib (from_rate_limit lib.errors) made
        pure (with_rate_limiting en layer limiter))
      else pure layer

  unfoldable pub wire_ip_banning : GuardLayer en → Build en lib (GuardLayer en)
  wire_ip_banning layer =
      if config.enable_ip_banning
      then (do
        manager ← perform lib.new_ban_manager
        pure (with_ip_banning en layer manager config.ip_ban_config))
      else pure layer

  -- Installed whatever the configuration says.
  unfoldable pub wire_https : GuardLayer en → Build en lib (GuardLayer en)
  wire_https layer = do
    stage ← attempt en lib lib.https_from (
        lib.build_https (record {
          enforce_https = config.enforce_https;
          trust_x_forwarded_proto = config.trust_x_forwarded_proto;
          passive_mode = config.passive_mode;
        }))
    pure (with_https_enforcement en layer stage)

  unfoldable pub wants_emergency : Bool
  wants_emergency = config.emergency_mode || not (is_empty config.emergency_whitelist)

  unfoldable pub wire_emergency : GuardLayer en → Build en lib (GuardLayer en)
  unfolding wants_emergency
  wire_emergency layer =
      if wants_emergency
      then (do
        stage ← attempt en lib lib.emergency_from (
            lib.build_emergency (record {
              emergency_mode = config.emergency_mode;
              passive_mode = config.passive_mode;
              emergency_whitelist = config.emergency_whitelist;
            }))
        pure (with_emergency_mode en layer stage))
      else pure layer

  unfoldable pub wire_error_responses : GuardLayer en → GuardLayer en
  wire_error_responses layer =
      if not (is_empty config.custom_error_responses)
      then with_custom_error_responses en layer config.custom_error_responses
      else layer

  unfoldable pub wire_on_block : GuardLayer en → GuardLayer en
  wire_on_block layer = elim (config.on_block) [
    | none ↦ layer
    | some hook ↦ with_on_block en layer hook
  ]

  unfoldable pub wants_exclusions : Bool
  wants_exclusions =
      not (is_empty config.excluded_detection_headers)
      || not (is_empty config.excluded_detection_params)
      || not (is_empty config.excluded_detection_body_fields)
      || not (is_empty config.enabled_detection_categories)

  unfoldable pub exclusions : en.DetectionExclusionConfig
  exclusions = lib.detection_exclusions (record {
    excluded_detection_headers = config.excluded_detection_headers;
    excluded_detection_params = config.excluded_detection_params;
    excluded_detection_body_fields = config.excluded_detection_body_fields;
    enabled_detection_categories =
        if not (is_empty config.enabled_detection_categories)
        then some config.enabled_detection_categories
        else none;
    detection_scan_body = some config.detection_scan_body;
  })

  unfoldable pub wire_exclusions : GuardLayer en → GuardLayer en
  unfolding wants_exclusions exclusions
  wire_exclusions layer =
      if wants_exclusions then with_detection_exclusions en layer exclusions else layer

  unfoldable pub sensitive_names : en.SensitiveNames
  sensitive_names =
      lib.new_sensitive_names (some config.log_sensitive_headers) (some config.log_sensitive_params)
        (some config.log_sensitive_body_fields)

  unfoldable pub wire_request_logging : GuardLayer en → GuardLayer en
  unfolding map_log_level sensitive_names
  wire_request_logging layer = elim (config.log_request_level) [
    | none ↦ layer
    | some level ↦ with_request_logging en layer (
        lib.new_request_logging (record {
          log_request_level = some (map_log_level en lib level);
          muted_check_logs = some config.muted_check_logs;
          sensitive = sensitive_names;
        }))
  ]

  unfoldable pub observing : Option LogLevel → Option LogLevel → ObservabilityConfig en
  unfolding map_log_level sensitive_names
  observing suspicious country = record {
    log_suspicious_level = map_option (map_log_level en lib) suspicious;
    log_request_level = map_option (map_log_level en lib) config.log_request_level;
    log_country_check_level = map_option (map_log_level en lib) country;
    muted_check_logs = some config.muted_check_logs;
    sensitive = sensitive_names;
  }

  -- With a suspicious level, and else with a country level alone.
  unfoldable pub wire_observability : GuardLayer en → GuardLayer en
  unfolding observing
  wire_observability layer = elim (config.log_suspicious_level) [
    | some level ↦
        with_observability en layer (observing (some level) config.log_country_check_level)
    | none ↦ elim (config.log_country_check_level) [
      | some country ↦ with_observability en layer (observing none (some country))
      | none ↦ layer
    ]
  ]

  unfoldable pub install_user_agent : GuardLayer en → Build en lib (GuardLayer en)
  install_user_agent layer = do
    filter ←
        attempt en lib (from_user_agent lib.errors)
          (lib.new_user_agent_filter config.blocked_user_agents)
    stage ← attempt en lib lib.user_agent_from (
        lib.build_user_agent (record {
          blocked_user_agents = filter;
          ip_ban = config.ip_ban_config;
          passive_mode = config.passive_mode;
        }))
    pure (with_user_agent en layer stage)

  unfoldable pub wire_user_agent : GuardLayer en → Build en lib (GuardLayer en)
  unfolding install_user_agent
  wire_user_agent layer =
      if not (is_empty config.blocked_user_agents) then install_user_agent layer else pure layer
