-- ===== src/Layer/Config/Whole.antt =====
-- The response processor of `GuardLayer::from_security_config` of `src/lib.rs`, and the whole of it.
use tower_guard_rs.Base.{
  Bool, true, not, ◌||◌, Option, none, some, is_empty, if◌then◌else◌, pure, perform, ◌>>=◌,
}
use tower_guard_rs.Engine.{Engine}
use tower_guard_rs.Layer.{GuardLayer}
use tower_guard_rs.Layer.Build.{ScanFn}
use tower_guard_rs.Layer.Builders.{with_response_processor}
use tower_guard_rs.Layer.Config.{ProcessorSettings, Constructors, SecurityConfig}
use tower_guard_rs.Layer.Config.Wire.{
  Build, base, wire_ip_gate, wire_rate_limiting, wire_ip_banning, wire_https, wire_emergency,
  wire_error_responses, wire_on_block, wire_exclusions, wire_request_logging, wire_observability,
  wire_user_agent,
}

module _ (en : Engine) (lib : Constructors en) (config : SecurityConfig en) where
  unfoldable pub wants_processor : Bool
  wants_processor =
      en.headers_enabled config.security_headers
      || config.enable_cors
      || not (is_empty config.global_behavior_rules)

  -- The CORS configuration that is handed over.
  unfoldable pub cors : Option en.CorsConfig
  cors =
      if config.enable_cors
      then some (
          lib.cors_config (record {
            enabled = true;
            allow_origins = config.cors_allow_origins;
            allow_methods = config.cors_allow_methods;
            allow_headers = config.cors_allow_headers;
            allow_credentials = config.cors_allow_credentials;
            max_age = config.cors_max_age;
          }))
      else none

  abbrev pub processor_settings : en.IpBanManager → ProcessorSettings en
  processor_settings manager = record {
    security_headers =
        if en.headers_enabled config.security_headers then some config.security_headers else none;
    cors = cors;
    global_behavior_rules = config.global_behavior_rules;
    ban_manager = manager;
    scan_response_body = config.behavior_scan_response_body;
    max_response_body_inspect_bytes = config.behavior_max_response_body_inspect_bytes;
    passive_mode = config.passive_mode;
  }

  -- The processor gets a ban manager of its own.
  unfoldable pub install_processor : GuardLayer en → Build en lib (GuardLayer en)
  unfolding cors
  install_processor layer = do
    manager ← perform lib.new_ban_manager
    processor ← perform (lib.new_response_processor (processor_settings manager))
    pure (with_response_processor en layer processor)

  unfoldable pub wire_processor : GuardLayer en → Build en lib (GuardLayer en)
  unfolding wants_processor install_processor
  wire_processor layer = if wants_processor then install_processor layer else pure layer

  -- The blocks that cannot fail.
  unfoldable pub wire_reporting : GuardLayer en → GuardLayer en
  unfolding wire_error_responses wire_on_block wire_exclusions wire_request_logging
      wire_observability
  wire_reporting layer = wire_observability en lib config (
      wire_request_logging en lib config (
        wire_exclusions en lib config
          (wire_on_block en lib config (wire_error_responses en lib config layer))))

  unfoldable pub from_security_config : ScanFn en → Build en lib (GuardLayer en)
  unfolding base wire_ip_gate wire_rate_limiting wire_ip_banning wire_https wire_emergency
      wire_reporting wire_user_agent wire_processor
  from_security_config scan_request = do
    gated ← wire_ip_gate en lib config (base en lib config scan_request)
    limited ← wire_rate_limiting en lib config gated
    banning ← wire_ip_banning en lib config limited
    secured ← wire_https en lib config banning
    guarded ← wire_emergency en lib config secured
    screened ← wire_user_agent en lib config (wire_reporting guarded)
    wire_processor screened
