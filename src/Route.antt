-- ===== src/Route.antt =====
-- The per-route carrier (`route_config::RouteConfig` of the engine) by the fields that
-- `src/service.rs` reads, and the lookup `RouteConfigResolver.should_bypass_check`.
use tower_guard_rs.Base.{ℕ, Text, codes, contains, Bool, ◌||◌, false, Option, List, map_or}
use tower_guard_rs.Engine.{Engine}

module _ (en : Engine) where
  pub record RouteConfig : Type 0 where
    pub behavior_rules : List en.BehaviorRule
    pub bypassed_checks : List Text
    pub ip_whitelist : Option (List Text)
    pub ip_blacklist : Option (List Text)
    pub whitelist_countries : Option (List Text)
    pub blocked_countries : Option (List Text)
    pub require_https : Bool
    pub max_request_size : Option ℕ
    pub required_headers : List (Text × Text)
    pub auth_required : Option Text
    pub api_key_required : Bool
    pub api_key_header : Option Text
    pub authorization_header_required : Option Text
    pub auth_verifier : Option en.AuthVerifier
    pub api_key_verifier : Option en.AuthVerifier
    pub require_referrer : Option (List Text)
    pub custom_validators : List en.CustomValidator
    -- `time_restrictions.get(..)`.
    pub time_restrictions : Option (Text → Option Text)
    pub enable_suspicious_detection : Bool
    pub block_cloud_providers : List Text
    pub blocked_user_agents : List Text
    -- The method `rate_limits()`: `none` is its error.
    pub rate_limits : Option (Option en.RouteRateLimits)

  -- The closure `bypassed` of `GuardService::call`: the named check, or the wildcard.
  unfoldable pub bypassed : Option RouteConfig → Text → Bool
  unfolding contains
  bypassed route check =
      map_or false
        (λ (r : RouteConfig).
          contains r.bypassed_checks (codes "all") || contains r.bypassed_checks check)
        route
