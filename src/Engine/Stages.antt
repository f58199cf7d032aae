-- ===== src/Engine/Stages.antt =====
-- The engine's stage objects by the methods that the program calls. A stage of the engine is not
-- under this repository: each is a value of such a record, with methods that are not known.
use tower_guard_rs.Base.{ℕ, Text, Bool, Option, List}
use tower_guard_rs.Engine.{
  Engine, IpGateDecision, IpGateVerdict, StatusBody, ResponseBits, RequestBits,
}

-- `https_enforcement::HttpsRedirectAnswer`.
pub record HttpsRedirectAnswer : Type 0 where
  pub status : ℕ
  pub location : Text

-- `tower::StageResponse`.
pub record StageResponse : Type 0 where
  pub status : ℕ
  pub body : Text
  pub custom_body : Option Text
  pub retry_after : Option ℕ

-- `tower::ThreatFinding`.
pub record ThreatFinding : Type 0 where
  pub is_threat : Bool
  pub categories : List Text
  pub trigger_info : Text

-- `tower::RequestObservation`.
pub record RequestObservation : Type 0 where
  pub method : Option Text
  pub url : Option Text
  pub user_agent : Option Text

-- A method that may record, emit or ask the clock.
abbrev pub Call : Engine → Type 0 → Type 0
Call en A = en.World → A × en.World

module _ (en : Engine) where
  pub record IpGateConfig : Type 0 where
    pub evaluate : en.Ip → IpGateVerdict

  pub record EmergencyModeStage : Type 0 where
    pub decide : Option Text → Text → Text → Text → Call en (Option StatusBody)

  -- Path, scheme, client host, forwarded protocol and target; for a route its `require_https`.
  pub record HttpsEnforcementStage : Type 0 where
    pub decide :
        Text → Text → Option Text → Option Text → Text → Call en (Option HttpsRedirectAnswer)
    pub decide_route :
        Text
        → Text
        → Option Text
        → Option Text
        → Text
        → Option Bool
        → Call en (Option HttpsRedirectAnswer)

  -- The composed line is dropped by the program.
  pub record RequestLoggingStage : Type 0 where
    pub compose : Option Text → Option Text → Option Text → en.World → en.World

  pub record HeadersAuthStage : Type 0 where
    pub decide : Text → List (Text × Text) → Call en (Option StatusBody)

  pub record ReferrerStage : Type 0 where
    pub decide : Text → Option Text → Text → Text → Text → Call en (Option StatusBody)

  pub record TimeWindowStage : Type 0 where
    pub decide : Text → Text → Text → Text → Call en (Option StatusBody)

  -- A failed validator and a custom answer carry a status or none.
  pub record CustomChecksStage : Type 0 where
    pub decide_custom_validators :
        Text → Text → Option Text → Option Text → Call en (Option (Option ℕ))
    pub decide_custom_request :
        Text → Text → Option Text → Option Text → Call en (Option (Option ℕ))

  pub record GeoStage : Type 0 where
    pub decide : Option en.Ip → Option IpGateDecision → Call en (Option StageResponse)
    pub country_check_log :
        Option en.Ip → Option en.LogLevel → Option en.LogLevel → en.World → en.World

  pub record CloudProviderStage : Type 0 where
    pub decide : Option en.Ip → Option IpGateDecision → Call en (Option StageResponse)
    pub decide_route :
        Option en.Ip → Option IpGateDecision → en.CloudSelectors → Call en (Option StageResponse)

  pub record UserAgentStage : Type 0 where
    pub decide :
        Option en.Ip
        → Option IpGateDecision
        → Option Text
        → Option Text
        → Option ThreatFinding
        → Call en (Option StageResponse)

  pub record RateLimitStage : Type 0 where
    pub passive_mode : Bool
    pub decide_bans_observed :
        Option en.Ip → Option RequestObservation → Call en (Option StageResponse)
    pub decide_tiers_observed :
        Option en.Ip
        → Option Text
        → Option en.RouteRateLimits
        → Option IpGateDecision
        → Option ThreatFinding
        → Option RequestObservation
        → Call en (Option StageResponse)

  pub record ResponseProcessor : Type 0 where
    pub cors_enabled : Bool
    pub cors : Option en.CorsConfig
    pub security_headers : Option en.SecurityHeadersConfig
    pub process_usage_rules :
        Text → Text → List en.BehaviorRule → en.Time → Call en (List en.BehaviorAction)
    pub process : RequestBits → ResponseBits → en.Time → Call en ResponseBits
