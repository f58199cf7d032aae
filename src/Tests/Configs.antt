-- ===== src/Tests/Configs.antt =====
-- The theorems about `GuardLayer::from_security_config` of `src/lib.rs`, applied.
use tower_guard_rs.Base.{
  Text, codes, true, false, none, some, List, [], ◌∷◌, contains, is_empty, stop, if◌then◌else◌, ◌≡◌,
  refl, ◌+◌, ◌>>=◌,
}
use tower_guard_rs.Engine.{allowed, denied}
use tower_guard_rs.Engine.Stages.{
  IpGateConfig, HttpsEnforcementStage, EmergencyModeStage, UserAgentStage, RequestLoggingStage,
  ResponseProcessor,
}
use tower_guard_rs.Layer.Build.{new}
use tower_guard_rs.Layer.Config.{
  Constructors, SecurityConfig, EngineErrors, ok, err, ip_gate, from_ip_gate, info,
}
use tower_guard_rs.Layer.Config.Wire.{restricts_ips}
use tower_guard_rs.Layer.Config.Whole.{from_security_config}
use tower_guard_rs.Layer.Config.Described.{Made, IsMade, level_of, described}
use tower_guard_rs.Layer.Config.Wired.{from_security_config-described}
use tower_guard_rs.Layer.Config.Rejected.{refusals, from_security_config-refusals}
use tower_guard_rs.Tests.Toy.{toy}
use tower_guard_rs.Tests.Fixtures.{no_threat}

abbrev gate_of : List Text → IpGateConfig toy
gate_of white = record {
  evaluate = λ _.
      if is_empty white
      then allowed (record { is_whitelisted = false; is_exempt = false })
      else denied (codes "not listed");
}

abbrev quiet_https : HttpsEnforcementStage toy
quiet_https = record {
  decide = λ _ _ _ _ _ w. (none, w);
  decide_route = λ _ _ _ _ _ _ w. (none, w);
}

abbrev quiet_emergency : EmergencyModeStage toy
quiet_emergency = record { decide = λ _ _ _ _ w. (none, w) }

abbrev quiet_agents : UserAgentStage toy
quiet_agents = record { decide = λ _ _ _ _ _ w. (none, w) }

abbrev quiet_log : RequestLoggingStage toy
quiet_log = record { compose = λ _ _ _ w. w }

abbrev quiet_processor : ResponseProcessor toy
quiet_processor = record {
  cors_enabled = false;
  cors = none;
  security_headers = none;
  process_usage_rules = λ _ _ _ _ w. ([], w);
  process = λ _ response _ w. (response, w);
}

abbrev texts : EngineErrors
texts = record {
  IpGateError = Text;
  RateLimitConfigError = Text;
  UserAgentConfigError = Text;
  IpBanConfigError = Text;
  show_ip_gate = λ e. e;
  show_rate_limit = λ e. e;
  show_user_agent = λ e. e;
  show_ban = λ e. e;
}

-- Constructors that refuse a single invalid address and nothing else.
abbrev toy_constructors : Constructors toy
toy_constructors = record {
  errors = texts;
  facade_info = tt;
  facade_debug = tt;
  facade_warning = tt;
  facade_error = tt;
  facade_critical = tt;
  new_ip_gate = λ white black exempt.
      if contains white (codes "not-an-ip") then err (codes "not-an-ip") else ok (gate_of white);
  rate_limit_config = λ _ _ _. tt;
  new_rate_limiter = λ _ w. (ok tt, w + 1);
  new_ban_manager = λ w. (tt, w + 1);
  HttpsError = Text;
  https_from = from_ip_gate texts;
  build_https = λ _. ok quiet_https;
  EmergencyError = Text;
  emergency_from = from_ip_gate texts;
  build_emergency = λ _. ok quiet_emergency;
  detection_exclusions = λ _. tt;
  new_sensitive_names = λ _ _ _. tt;
  new_request_logging = λ _. quiet_log;
  new_user_agent_filter = λ patterns. ok patterns;
  UserAgentError = Text;
  user_agent_from = from_ip_gate texts;
  build_user_agent = λ _. ok quiet_agents;
  cors_config = λ _. tt;
  new_response_processor = λ _ w. (quiet_processor, w + 1);
}

abbrev guarded_config : SecurityConfig toy
guarded_config = record {
  detection_max_content_length = 10000;
  detection_max_body_inspect_bytes = 4096;
  detection_preserve_attack_patterns = true;
  detection_semantic_threshold = tt;
  detection_threat_score_threshold = tt;
  detection_binary_min_run_length = 16;
  detection_max_scan_values = 512;
  detection_max_scan_chars = 65536;
  detection_max_json_depth = 32;
  passive_mode = true;
  enable_penetration_detection = true;
  exclude_paths = codes "/pay" ∷ [];
  whitelist = none;
  blacklist = codes "3" ∷ [];
  exempt_ips = [];
  enable_rate_limiting = true;
  rate_limit = 10;
  rate_limit_window = 60;
  enable_ip_banning = true;
  ip_ban_config = tt;
  enforce_https = false;
  trust_x_forwarded_proto = false;
  emergency_mode = false;
  emergency_whitelist = codes "9" ∷ [];
  custom_error_responses = (403, codes "no") ∷ [];
  on_block = none;
  excluded_detection_headers = [];
  excluded_detection_params = codes "q" ∷ [];
  excluded_detection_body_fields = [];
  enabled_detection_categories = [];
  detection_scan_body = true;
  log_request_level = some info;
  log_suspicious_level = none;
  log_country_check_level = some info;
  muted_check_logs = [];
  log_sensitive_headers = [];
  log_sensitive_params = [];
  log_sensitive_body_fields = [];
  blocked_user_agents = codes "bad-bot" ∷ [];
  security_headers = [];
  enable_cors = true;
  cors_allow_origins = codes "*" ∷ [];
  cors_allow_methods = [];
  cors_allow_headers = [];
  cors_allow_credentials = false;
  cors_max_age = 600;
  global_behavior_rules = [];
  behavior_scan_response_body = false;
  behavior_max_response_body_inspect_bytes = 0;
}

-- What is made of it, from a world at 0.
abbrev guarded_made : Made toy
guarded_made = record {
  ip_gate = some (gate_of []);
  rate_limiter = some tt;
  ban_manager = some tt;
  https_enforcement = quiet_https;
  emergency_mode = some quiet_emergency;
  user_agent = some quiet_agents;
  response_processor = some quiet_processor;
}

from_security_config-described_example :
    (made : Made toy) × IsMade toy toy_constructors guarded_config made
    × (described toy toy_constructors guarded_config
          (level_of toy toy_constructors guarded_config)
          (λ _ _ _. some no_threat)
          guarded_made
        ≡ described toy toy_constructors guarded_config
            (level_of toy toy_constructors guarded_config)
            (λ _ _ _. some no_threat)
            made)
unfolding from_security_config described ◌>>=◌ contains new
from_security_config-described_example =
    from_security_config-described toy toy_constructors guarded_config (λ _ _ _. some no_threat) 0
      refl

-- An address list with an invalid entry, beside a rate limiter that is fine.
abbrev invalid_config : SecurityConfig toy
invalid_config = record guarded_config { whitelist = some (codes "not-an-ip" ∷ []) }

from_security_config-refusals_example :
    (from_security_config toy toy_constructors invalid_config (λ _ _ _. some no_threat) 0).0
    ≡ stop (ip_gate (codes "not-an-ip"))
unfolding refusals contains restricts_ips
from_security_config-refusals_example =
    from_security_config-refusals toy toy_constructors invalid_config (λ _ _ _. some no_threat) 0
