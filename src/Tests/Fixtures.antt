-- ===== src/Tests/Fixtures.antt =====
-- A layer with the rate-limit stage and nothing else, a request, and a route without restrictions.
use tower_guard_rs.Base.{codes, true, false, none, some, [], ◌∷◌, refl}
use tower_guard_rs.Engine.{RequestScanVerdict, denied}
use tower_guard_rs.Engine.Stages.{RateLimitStage, IpGateConfig}
use tower_guard_rs.Route.{RouteConfig}
use tower_guard_rs.Layer.{GuardLayer, DetectConfig}
use tower_guard_rs.Layer.Build.{StageBuilder, StageSettings}
use tower_guard_rs.Request.{Parts}
use tower_guard_rs.Tests.Toy.{toy}

abbrev pub limits : RateLimitStage toy
limits = record {
  passive_mode = false;
  decide_bans_observed = λ _ _ w. (none, w);
  decide_tiers_observed = λ _ _ _ _ _ _ w. (none, w);
}

abbrev detect_config : DetectConfig toy
detect_config = record {
  max_content_length = 100;
  max_full_scan_bytes = 100;
  preserve_attack_patterns = true;
  semantic_threshold = tt;
  threat_score_threshold = tt;
  binary_min_run_length = 4;
  max_scan_values = 10;
  max_scan_chars = 10;
  max_json_depth = 4;
}

abbrev pub no_threat : RequestScanVerdict
no_threat = record { is_threat = false; categories = []; reason = [] }

abbrev pub sqli : RequestScanVerdict
sqli = record { is_threat = true; categories = []; reason = codes "sqli" }

abbrev pub bare : GuardLayer toy
bare = record {
  config = detect_config;
  body_cap = 8;
  ip_gate = none;
  rate_limiter = none;
  ban_state = none;
  route_tiers = none;
  route_configs = none;
  geo_handler = none;
  events = none;
  observability = none;
  on_block = none;
  response_modifier = none;
  on_error = none;
  custom_error_responses = [];
  passive_mode = false;
  distributed = none;
  distributed_ban_store = none;
  detection_exclusions = none;
  emergency_mode = none;
  https_enforcement = none;
  request_logging = none;
  headers_auth = none;
  referrer_gate = none;
  custom_checks = none;
  time_window_gate = none;
  geo_blocking = none;
  cloud_provider = none;
  user_agent = none;
  response_processor = none;
  exclude_paths = [];
  penetration_detection_enabled = true;
  scan_fn = λ _ _ _. some no_threat;
  stage = some limits;
  cloud_refresh = none;
}

abbrev pub request : Parts toy
request = record {
  method = codes "POST";
  scheme = none;
  authority = none;
  path = codes "/pay";
  query = some (codes "a=1");
  headers = [];
  client_ip = some 7;
  gate = none;
  route_config = none;
  route_rate_limits = none;
  route_exclusions = none;
}

abbrev pub open_route : RouteConfig toy
open_route = record {
  behavior_rules = [];
  bypassed_checks = [];
  ip_whitelist = none;
  ip_blacklist = none;
  whitelist_countries = none;
  blocked_countries = none;
  require_https = false;
  max_request_size = none;
  required_headers = [];
  auth_required = none;
  api_key_required = false;
  api_key_header = none;
  authorization_header_required = none;
  auth_verifier = none;
  api_key_verifier = none;
  require_referrer = none;
  custom_validators = [];
  time_restrictions = none;
  enable_suspicious_detection = true;
  block_cloud_providers = [];
  blocked_user_agents = [];
  rate_limits = none;
}

-- A gate that denies every client.
abbrev pub closed_gate : IpGateConfig toy
closed_gate = record { evaluate = λ _. denied (codes "blacklisted") }

-- A route that denies the address 7.
abbrev pub closed_route : RouteConfig toy
closed_route = record open_route { ip_blacklist = some (codes "7" ∷ []) }

-- A builder that sets the mode of the fixture's stage.
abbrev pub builder : StageBuilder toy
builder = record {
  build = λ (s : StageSettings toy). some (record limits { passive_mode = s.passive_mode });
  builds = λ (s : StageSettings toy). (record limits { passive_mode = s.passive_mode }, refl, refl);
}
