-- ===== src/Layer/Config.antt =====
-- What `GuardLayer::from_security_config` of `src/lib.rs` reads and what it may refuse with: the
-- unified `SecurityConfig`, `GuardConfigError` and the engine's constructors, a parameter.
pub mod Wire
pub mod Whole
pub mod Steps
pub mod Described
pub mod Last
pub mod Settling
pub mod Rejected
pub mod Used
pub mod Wired
use tower_guard_rs.Base.{ℕ, Text, codes, Bool, Option, List, ◌++◌}
use tower_guard_rs.Engine.{Engine}
use tower_guard_rs.Engine.Stages.{
  IpGateConfig, EmergencyModeStage, HttpsEnforcementStage, RequestLoggingStage, UserAgentStage,
  ResponseProcessor,
}

pub data Result (E A : Type 0) : Type 0 where
  ok : A → Result E A
  err : E → Result E A

-- `security_config::LogLevel`.
pub data LogLevel : Type 0 where
  info debug warning error critical : LogLevel

-- The error types of the engine's constructors with their `Display`.
pub record EngineErrors : Type 1 where
  pub IpGateError : Type 0
  pub RateLimitConfigError : Type 0
  pub UserAgentConfigError : Type 0
  pub IpBanConfigError : Type 0
  pub show_ip_gate : IpGateError → Text
  pub show_rate_limit : RateLimitConfigError → Text
  pub show_user_agent : UserAgentConfigError → Text
  pub show_ban : IpBanConfigError → Text

module _ (errors : EngineErrors) where
  pub data GuardConfigError : Type 0 where
    ip_gate : errors.IpGateError → GuardConfigError
    rate_limit : errors.RateLimitConfigError → GuardConfigError
    user_agent : errors.UserAgentConfigError → GuardConfigError
    ban : errors.IpBanConfigError → GuardConfigError

  -- `Display for GuardConfigError`.
  unfoldable pub fmt : GuardConfigError → Text
  fmt (ip_gate e) = codes "ip list: " ++ errors.show_ip_gate e
  fmt (rate_limit e) = codes "rate limit: " ++ errors.show_rate_limit e
  fmt (user_agent e) = codes "blocked user agent: " ++ errors.show_user_agent e
  fmt (ban e) = codes "ip ban: " ++ errors.show_ban e

  -- `From<E> for GuardConfigError`, which the operator `?` applies.
  pub record From (E : Type 0) : Type 0 where
    pub from : E → GuardConfigError

  instance abbrev pub from_ip_gate : From errors.IpGateError
  from_ip_gate = record { from = ip_gate }

  instance abbrev pub from_rate_limit : From errors.RateLimitConfigError
  from_rate_limit = record { from = rate_limit }

  instance abbrev pub from_user_agent : From errors.UserAgentConfigError
  from_user_agent = record { from = user_agent }

  instance abbrev pub from_ban : From errors.IpBanConfigError
  from_ban = record { from = ban }

-- `DetectionExclusionConfig`, its fields.
pub record ExclusionFields : Type 0 where
  pub excluded_detection_headers : List Text
  pub excluded_detection_params : List Text
  pub excluded_detection_body_fields : List Text
  pub enabled_detection_categories : Option (List Text)
  pub detection_scan_body : Option Bool

-- `cors::CorsConfig`, its fields.
pub record CorsFields : Type 0 where
  pub enabled : Bool
  pub allow_origins : List Text
  pub allow_methods : List Text
  pub allow_headers : List Text
  pub allow_credentials : Bool
  pub max_age : ℕ

-- `HttpsEnforcementStageConfig` and `EmergencyModeStageConfig`, the latter with its whitelist.
pub record HttpsSettings : Type 0 where
  pub enforce_https : Bool
  pub trust_x_forwarded_proto : Bool
  pub passive_mode : Bool

pub record EmergencySettings : Type 0 where
  pub emergency_mode : Bool
  pub passive_mode : Bool
  pub emergency_whitelist : List Text

module _ (en : Engine) where
  -- `RequestLoggingStageConfig`.
  pub record RequestLoggingSettings : Type 0 where
    pub log_request_level : Option en.LogLevel
    pub muted_check_logs : Option (List Text)
    pub sensitive : en.SensitiveNames

  -- `UserAgentStageConfig`.
  pub record UserAgentSettings : Type 0 where
    pub blocked_user_agents : en.UserAgentFilter
    pub ip_ban : en.IpBanConfig
    pub passive_mode : Bool

  -- The arguments of `ResponseProcessor::new`; the tracker is fresh.
  pub record ProcessorSettings : Type 0 where
    pub security_headers : Option en.SecurityHeadersConfig
    pub cors : Option en.CorsConfig
    pub global_behavior_rules : List en.BehaviorRule
    pub ban_manager : en.IpBanManager
    pub scan_response_body : Bool
    pub max_response_body_inspect_bytes : ℕ
    pub passive_mode : Bool

  -- The engine's constructors. Those that allocate shared state change the world; the error of the
  -- three stage builders is not named by the program, only its conversion is used.
  pub record Constructors : Type 1 where
    pub errors : EngineErrors
    pub facade_info : en.LogLevel
    pub facade_debug : en.LogLevel
    pub facade_warning : en.LogLevel
    pub facade_error : en.LogLevel
    pub facade_critical : en.LogLevel
    pub new_ip_gate :
        List Text → List Text → List Text → Result errors.IpGateError (IpGateConfig en)
    -- The default knobs with the enabling flag, the limit and the window replaced.
    pub rate_limit_config : Bool → ℕ → ℕ → en.RateLimitConfig
    pub new_rate_limiter :
        en.RateLimitConfig → en.World → Result errors.RateLimitConfigError en.RateLimiter × en.World
    pub new_ban_manager : en.World → en.IpBanManager × en.World
    pub HttpsError : Type 0
    pub https_from : From errors HttpsError
    pub build_https : HttpsSettings → Result HttpsError (HttpsEnforcementStage en)
    pub EmergencyError : Type 0
    pub emergency_from : From errors EmergencyError
    pub build_emergency : EmergencySettings → Result EmergencyError (EmergencyModeStage en)
    pub detection_exclusions : ExclusionFields → en.DetectionExclusionConfig
    pub new_sensitive_names :
        Option (List Text) → Option (List Text) → Option (List Text) → en.SensitiveNames
    pub new_request_logging : RequestLoggingSettings → RequestLoggingStage en
    pub new_user_agent_filter : List Text → Result errors.UserAgentConfigError en.UserAgentFilter
    pub UserAgentError : Type 0
    pub user_agent_from : From errors UserAgentError
    pub build_user_agent : UserAgentSettings → Result UserAgentError (UserAgentStage en)
    pub cors_config : CorsFields → en.CorsConfig
    pub new_response_processor : ProcessorSettings → en.World → ResponseProcessor en × en.World

  -- `SecurityConfig`, by what the program reads; `ip_ban_config` is the result of that method.
  pub record SecurityConfig : Type 0 where
    pub detection_max_content_length : ℕ
    pub detection_max_body_inspect_bytes : ℕ
    pub detection_preserve_attack_patterns : Bool
    pub detection_semantic_threshold : en.F64
    pub detection_threat_score_threshold : en.F64
    pub detection_binary_min_run_length : ℕ
    pub detection_max_scan_values : ℕ
    pub detection_max_scan_chars : ℕ
    pub detection_max_json_depth : ℕ
    pub passive_mode : Bool
    pub enable_penetration_detection : Bool
    pub exclude_paths : List Text
    pub whitelist : Option (List Text)
    pub blacklist : List Text
    pub exempt_ips : List Text
    pub enable_rate_limiting : Bool
    pub rate_limit : ℕ
    pub rate_limit_window : ℕ
    pub enable_ip_banning : Bool
    pub ip_ban_config : en.IpBanConfig
    pub enforce_https : Bool
    pub trust_x_forwarded_proto : Bool
    pub emergency_mode : Bool
    pub emergency_whitelist : List Text
    pub custom_error_responses : List (ℕ × Text)
    pub on_block : Option en.OnBlockHook
    pub excluded_detection_headers : List Text
    pub excluded_detection_params : List Text
    pub excluded_detection_body_fields : List Text
    pub enabled_detection_categories : List Text
    pub detection_scan_body : Bool
    pub log_request_level : Option LogLevel
    pub log_suspicious_level : Option LogLevel
    pub log_country_check_level : Option LogLevel
    pub muted_check_logs : List Text
    pub log_sensitive_headers : List Text
    pub log_sensitive_params : List Text
    pub log_sensitive_body_fields : List Text
    pub blocked_user_agents : List Text
    pub security_headers : en.SecurityHeadersConfig
    pub enable_cors : Bool
    pub cors_allow_origins : List Text
    pub cors_allow_methods : List Text
    pub cors_allow_headers : List Text
    pub cors_allow_credentials : Bool
    pub cors_max_age : ℕ
    pub global_behavior_rules : List en.BehaviorRule
    pub behavior_scan_response_body : Bool
    pub behavior_max_response_body_inspect_bytes : ℕ
