-- ===== src/Engine.antt =====
-- What the program calls of `guard_core_engine` and `guard_core_rs`: a parameter of the model.
-- The engine's stores, its event bus, the clock and the wrapped service's own state are one
-- `World`. A call that may record, emit or ask the clock changes it; a lookup is a function.
pub mod Stages
use tower_guard_rs.Base.{ℕ, Text, Bool, false, Option, List, ◌≡◌}
use tower_guard_rs.Http.{Http}

-- `ip_gate::IpGateDecision`: the skip state of a request that passed the gate.
pub record IpGateDecision : Type 0 where
  pub is_whitelisted : Bool
  pub is_exempt : Bool

-- `ip_gate::IpGateVerdict`; a denial is read through its `reason()`.
pub data IpGateVerdict : Type 0 where
  allowed : IpGateDecision → IpGateVerdict
  denied : Text → IpGateVerdict

-- `detection_exclusions::RequestScanVerdict`.
pub record RequestScanVerdict : Type 0 where
  pub is_threat : Bool
  pub categories : List Text
  pub reason : Text

-- `detection_exclusions::RequestSurfaces`.
pub record RequestSurfaces : Type 0 where
  pub url_path : Option Text
  pub query_params : List (Text × Text)
  pub headers : List (Text × Text)
  pub content_type : Text
  pub raw_body : Text

-- `headers_auth::HeaderAuthRules`, its required headers as pairs of a name and a value.
pub record HeaderAuthRules : Type 0 where
  pub required_headers : List (Text × Text)
  pub auth_required : Option Text
  pub api_key_required : Bool
  pub api_key_header : Option Text
  pub authorization_header_required : Option Text

-- A status with a body, as most of the engine's answers are.
pub record StatusBody : Type 0 where
  pub status : ℕ
  pub body : Text

-- `referrer::ReferrerVerdict`.
pub data ReferrerVerdict : Type 0 where
  allowed missing invalid : ReferrerVerdict

-- `custom_checks::CustomRequestContext`.
pub record CustomRequestContext : Type 0 where
  pub method : Text
  pub path : Text
  pub client_ip : Option Text
  pub body : Option Text

-- `custom_checks::CustomValidatorsVerdict`; a failure may carry a response, and that a status.
pub data CustomValidatorsVerdict : Type 0 where
  passed : CustomValidatorsVerdict
  failed : Option (Option ℕ) → CustomValidatorsVerdict

-- `time_window::TimeWindow`.
pub record TimeWindow : Type 0 where
  pub start : Option Text
  pub stop : Option Text
  pub timezone : Option Text

-- `cors::PreflightRequest` and its answer.
pub record PreflightRequest : Type 0 where
  pub origin : Option Text
  pub request_method : Option Text
  pub request_headers_raw : Option Text

pub record PreflightAnswer : Type 0 where
  pub status_code : ℕ
  pub body : Text
  pub headers : List (Text × Text)

-- `process_response::ResponseBits`, the body never captured, and `RequestBits`.
pub record ResponseBits : Type 0 where
  pub status : ℕ
  pub headers : List (Text × Text)

pub record RequestBits : Type 0 where
  pub method : Text
  pub url_path : Text
  pub client_ip : Text
  pub origin : Option Text

-- The arguments of `responses::build_block_payload`, less the redaction set.
pub record BlockFields : Type 0 where
  pub check : Text
  pub message : Text
  pub reason : Text
  pub passive : Bool
  pub client_ip : Text
  pub url : Text
  pub method : Text
  pub status : Option ℕ

pub record Engine : Type 1 where
  pub http : Http
  pub World : Type 0
  pub Ip : Type 0
  pub Time : Type 0
  pub F64 : Type 0
  pub InnerBody : Type 0
  pub InnerError : Type 0
  -- A floating-point literal.
  pub float : Text → F64
  -- The largest `usize`.
  pub usize_max : ℕ
  -- `IpAddr::to_string`, and `SystemTime::now` or `Utc::now`.
  pub ip_to_string : Ip → Text
  pub now : World → Time × World
  -- Per-route values that the program only hands on.
  pub BehaviorRule : Type 0
  pub BehaviorAction : Type 0
  pub RouteRateLimits : Type 0
  pub RouteDetectionExclusions : Type 0
  pub AuthVerifier : Type 0
  pub CustomValidator : Type 0
  pub is_ban : BehaviorAction → Bool
  -- The detection exclusions, global and per route, and what they resolve to.
  pub DetectionExclusionConfig : Type 0
  pub ResolvedExclusions : Type 0
  pub resolve_exclusions :
      Option DetectionExclusionConfig → Option RouteDetectionExclusions → ResolvedExclusions
  pub detection_enabled : Bool → Option Bool → Bool
  -- `ip_gate::RouteIpGate`; `none` is an invalid list entry.
  pub RouteIpGate : Type 0
  pub RouteIpVerdict : Type 0
  pub new_route_ip_gate : List Text → List Text → Option RouteIpGate
  pub evaluate_route : RouteIpGate → Ip → RouteIpVerdict
  pub whitelist_configured : RouteIpGate → Bool
  pub unrestricted : RouteIpVerdict
  pub is_denied : RouteIpVerdict → Bool
  pub unrestricted_passes : is_denied unrestricted ≡ false
  -- `geo`: the country lists of a route, and the verdict on an address.
  pub GeoIpHandler : Type 0
  pub CountryLists : Type 0
  pub CountryBlock : Type 0
  pub parse_country_lists : List Text → List Text → CountryLists
  pub whitelist_countries : CountryLists → List Text
  pub check_countries : Ip → CountryLists → GeoIpHandler → Bool → Option CountryBlock
  -- `headers_auth`, `referrer`, `custom_checks` and `time_window`.
  pub has_rules : HeaderAuthRules → Bool
  pub decide_headers_auth :
      HeaderAuthRules
      → Option AuthVerifier × Option AuthVerifier
      → (Text → Option Text)
      → Option StatusBody
  pub decide_referrer : Option Text → List Text → ReferrerVerdict
  pub referrer_missing : StatusBody
  pub referrer_invalid : StatusBody
  pub time_window_block : StatusBody
  pub anonymous_name : Text
  pub decide_custom_validators :
      List (Text × CustomValidator) → CustomRequestContext → World → CustomValidatorsVerdict × World
  pub hhmm_in_zone : Time → Option Text → Text
  pub is_within : TimeWindow → Text → Bool
  -- `cloud_provider` selectors and `user_agent` filters; `none` is an invalid one.
  pub CloudSelectors : Type 0
  pub UserAgentFilter : Type 0
  pub parse_cloud_selectors : List Text → Option CloudSelectors
  pub from_trusted_patterns : List Text → Option UserAgentFilter
  pub is_blocked : UserAgentFilter → Text → Bool
  -- `cors`, and the security-header set that a configuration renders.
  pub CorsConfig : Type 0
  pub SecurityHeadersConfig : Type 0
  pub allowed_preflight_request_header : Text
  pub is_preflight : Text → List (Text × Text) → Bool
  pub build_preflight_response : CorsConfig → PreflightRequest → PreflightAnswer
  pub headers_enabled : SecurityHeadersConfig → Bool
  pub security_headers : SecurityHeadersConfig → List (Text × Text)
  -- `responses`: the body overrides and the block hook.
  pub SensitiveNames : Type 0
  pub LogLevel : Type 0
  pub BlockPayload : Type 0
  pub OnBlockHook : Type 0
  pub resolve_error_body : List (ℕ × Text) → ℕ → Text → Text
  pub build_block_payload : BlockFields → SensitiveNames → BlockPayload
  pub fire_block_hook : Option OnBlockHook → BlockPayload → World → World
  -- What the layer only stores and hands to the builder of the rate-limit stage.
  pub RateLimiter : Type 0
  pub RateLimitConfig : Type 0
  pub IpBanManager : Type 0
  pub ViolationCounters : Type 0
  pub IpBanConfig : Type 0
  pub SlidingWindowStore : Type 0
  pub BanStore : Type 0
  pub CloudRefreshScheduler : Type 0
  pub CloudIpTable : Type 0
  pub limiter_config : RateLimiter → RateLimitConfig
  pub rate_limiting_off : RateLimitConfig
  pub ip_banning_off : IpBanConfig
  pub new_counters : ViolationCounters
  pub reset_limiter : RateLimiter → World → World
  pub schedule_refresh : CloudRefreshScheduler → CloudIpTable → World → Bool × World
  -- The event bus with the headers-applied event: path, count, CSP, HSTS and client.
  pub SecurityEventBus : Type 0
  pub SecurityEvent : Type 0
  pub security_headers_applied_event : Text → ℕ → Bool → Bool → Text → SecurityEvent
  pub send_event : SecurityEventBus → SecurityEvent → World → World
