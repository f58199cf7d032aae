-- ===== src/Tests/Toy.antt =====
-- A concrete `http` crate and a concrete engine: the parameters of the model, filled.
use tower_guard_rs.Base.{
  ℕ, ◌+◌, Text, codes, Bool, true, false, ◌&&◌, Option, none, some, List, [], ◌∷◌, leb, ltb,
  if◌then◌else◌, text_eq, text_eq_refl, contains, is_empty, ◌≡◌, refl, decimal, keep, not,
}
use tower_guard_rs.Http.{Http}
use tower_guard_rs.Engine.{Engine, StatusBody, allowed, passed}

abbrev lookup : List (Text × Text) → Text → Option Text
lookup [] name = none
lookup ((key, value) ∷ rest) name = if text_eq key name then some value else lookup rest name

abbrev replace : List (Text × Text) → Text → Text → List (Text × Text)
replace headers name value =
    (name, value) ∷ keep (λ (entry : Text × Text). not (text_eq entry.0 name)) headers

pub replaced : (h : List (Text × Text)) (n v : Text) → lookup (replace h n v) n ≡ some v
replaced h n v = rw (text_eq_refl n)

-- Header maps are association lists, every text is a header value, and a status has three digits.
abbrev pub toy_http : Http
toy_http = record {
  HeaderMap = List (Text × Text);
  HeaderValue = Text;
  no_headers = [];
  get = lookup;
  iter = λ h. h;
  insert = replace;
  get-insert_self = replaced;
  to_str = λ v. some v;
  value_from_str = λ v. some v;
  name_from_str = λ n. some n;
  text_plain = codes "text/plain; charset=utf-8";
  text_plain_valid = refl;
  valid_status = λ n. leb 100 n && ltb n 1000;
  valid_413 = refl;
  valid_500 = refl;
}

abbrev answer_403 : StatusBody
answer_403 = record { status = 403; body = codes "Forbidden" }

-- The world counts the effects, an address is a number, and a list of addresses is read as numbers
-- written out.
abbrev pub toy : Engine
toy = record {
  http = toy_http;
  World = ℕ;
  Ip = ℕ;
  Time = ℕ;
  F64 = Unit {0};
  float = λ _. tt;
  InnerBody = Text;
  InnerError = Unit {0};
  usize_max = 18446744073709551615;
  ip_to_string = decimal;
  now = λ w. (w, w + 1);
  BehaviorRule = Unit {0};
  BehaviorAction = Bool;
  RouteRateLimits = Unit {0};
  RouteDetectionExclusions = Unit {0};
  AuthVerifier = Unit {0};
  CustomValidator = Unit {0};
  is_ban = λ ban. ban;
  DetectionExclusionConfig = Unit {0};
  ResolvedExclusions = Unit {0};
  resolve_exclusions = λ _ _. tt;
  detection_enabled = λ on _. on;
  RouteIpGate = List Text × List Text;
  RouteIpVerdict = Bool;
  new_route_ip_gate = λ white black. some (white, black);
  evaluate_route = λ gate ip. contains gate.1 (decimal ip);
  whitelist_configured = λ gate. not (is_empty gate.0);
  unrestricted = false;
  is_denied = λ denied. denied;
  unrestricted_passes = refl;
  GeoIpHandler = Unit {0};
  CountryLists = List Text × List Text;
  CountryBlock = Unit {0};
  parse_country_lists = λ white black. (white, black);
  whitelist_countries = λ lists. lists.0;
  check_countries = λ _ _ _ _. none;
  has_rules = λ rules. not (is_empty rules.required_headers);
  decide_headers_auth = λ _ _ _. none;
  decide_referrer = λ _ _. allowed;
  referrer_missing = answer_403;
  referrer_invalid = answer_403;
  time_window_block = answer_403;
  anonymous_name = codes "anonymous";
  decide_custom_validators = λ _ _ w. (passed, w);
  hhmm_in_zone = λ _ _. codes "12:00";
  is_within = λ _ _. true;
  CloudSelectors = List Text;
  UserAgentFilter = List Text;
  parse_cloud_selectors = λ selectors. some selectors;
  from_trusted_patterns = λ patterns. some patterns;
  is_blocked = contains;
  CorsConfig = Unit {0};
  SecurityHeadersConfig = List (Text × Text);
  allowed_preflight_request_header = codes "access-control-request-method";
  is_preflight = λ method headers. text_eq method (codes "OPTIONS");
  build_preflight_response = λ _ _. record { status_code = 204; body = []; headers = [] };
  headers_enabled = λ set. not (is_empty set);
  security_headers = λ set. set;
  SensitiveNames = Unit {0};
  LogLevel = Unit {0};
  BlockPayload = Unit {0};
  OnBlockHook = Unit {0};
  resolve_error_body = λ _ _ body. body;
  build_block_payload = λ _ _. tt;
  fire_block_hook = λ _ _ w. w + 1;
  RateLimiter = Unit {0};
  RateLimitConfig = Unit {0};
  IpBanManager = Unit {0};
  ViolationCounters = Unit {0};
  IpBanConfig = Unit {0};
  SlidingWindowStore = Unit {0};
  BanStore = Unit {0};
  CloudRefreshScheduler = Unit {0};
  CloudIpTable = Unit {0};
  limiter_config = λ _. tt;
  rate_limiting_off = tt;
  ip_banning_off = tt;
  new_counters = tt;
  reset_limiter = λ _ w. w + 1;
  schedule_refresh = λ _ _ w. (true, w + 1);
  SecurityEventBus = Unit {0};
  SecurityEvent = Unit {0};
  security_headers_applied_event = λ _ _ _ _ _. tt;
  send_event = λ _ _ w. w + 1;
}
