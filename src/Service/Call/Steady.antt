-- ===== src/Service/Call/Steady.antt =====
-- The panics that `GuardService::call` of `src/service.rs` can end in, and what rules them out: statuses that
-- are valid, and a stage and a CORS configuration that are there where the code expects them.
pub mod Entry
pub mod Middle
pub mod Gates
pub mod Stages
pub mod Whole
use tower_guard_rs.Base.{
  ℕ, Text, Bool, true, Option, none, some, List, map_or, unwrap_or, and_then, ◌≡◌, ◌≢◌,
}
use tower_guard_rs.Engine.{
  Engine, StatusBody, HeaderAuthRules, PreflightRequest, CustomRequestContext,
  CustomValidatorsVerdict, failed,
}
use tower_guard_rs.Engine.Stages.{
  Call, StageResponse, HttpsRedirectAnswer, EmergencyModeStage, HttpsEnforcementStage,
  HeadersAuthStage, ReferrerStage, TimeWindowStage, CustomChecksStage, GeoStage, CloudProviderStage,
  UserAgentStage, RateLimitStage, ResponseProcessor, ThreatFinding,
}
use tower_guard_rs.Engine.{IpGateDecision}
use tower_guard_rs.Layer.{GuardLayer}

module _ (en : Engine) where
  abbrev pub Valid : ℕ → Type 0
  Valid status = en.http.valid_status status ≡ true

  -- A call whose answer, where it has one, has a valid status.
  abbrev pub AnswersValid : {A : Type 0} → (A → ℕ) → Call en (Option A) → Type 0
  AnswersValid {A} status m = (w : en.World) (a : A) → (m w).0 ≡ some a → Valid (status a)

  -- The statuses that the program writes itself, and those of the engine's functions.
  pub record StatusesValid : Type 0 where
    pub own_200 : Valid 200
    pub own_301 : Valid 301
    pub own_400 : Valid 400
    pub own_403 : Valid 403
    pub headers_auth :
        (rules : HeaderAuthRules) (verifiers : Option en.AuthVerifier × Option en.AuthVerifier)
        (headers : Text → Option Text) (a : StatusBody)
        → en.decide_headers_auth rules verifiers headers ≡ some a
        → Valid a.status
    pub referrer_missing : Valid en.referrer_missing.status
    pub referrer_invalid : Valid en.referrer_invalid.status
    pub time_window : Valid en.time_window_block.status
    pub preflight :
        (cors : en.CorsConfig) (request : PreflightRequest)
        → Valid (en.build_preflight_response cors request).status_code
    pub validators :
        (named : List (Text × en.CustomValidator)) (context : CustomRequestContext) (w : en.World)
        (status : ℕ)
        → (en.decide_custom_validators named context w).0 ≡ failed (some (some status))
        → Valid status

  -- The stages that are installed answer with valid statuses.
  pub record StagesValid (layer : GuardLayer en) : Type 0 where
    pub emergency :
        (stage : EmergencyModeStage en)
        → layer.emergency_mode ≡ some stage
        → (ip : Option Text) (text path method : Text)
        → AnswersValid (λ (a : StatusBody). a.status) (stage.decide ip text path method)
    pub https :
        (stage : HttpsEnforcementStage en)
        → layer.https_enforcement ≡ some stage
        → (path scheme : Text) (host proto : Option Text) (url : Text)
        → AnswersValid
            (λ (a : HttpsRedirectAnswer). a.status)
            (stage.decide path scheme host proto url)
    pub https_route :
        (stage : HttpsEnforcementStage en)
        → layer.https_enforcement ≡ some stage
        → (path scheme : Text) (host proto : Option Text) (url : Text) (required : Option Bool)
        → AnswersValid
            (λ (a : HttpsRedirectAnswer). a.status)
            (stage.decide_route path scheme host proto url required)
    pub headers_auth :
        (stage : HeadersAuthStage en)
        → layer.headers_auth ≡ some stage
        → (path : Text) (headers : List (Text × Text))
        → AnswersValid (λ (a : StatusBody). a.status) (stage.decide path headers)
    pub referrer :
        (stage : ReferrerStage en)
        → layer.referrer_gate ≡ some stage
        → (path : Text) (referer : Option Text) (ip url method : Text)
        → AnswersValid (λ (a : StatusBody). a.status) (stage.decide path referer ip url method)
    pub time_window :
        (stage : TimeWindowStage en)
        → layer.time_window_gate ≡ some stage
        → (path ip url method : Text)
        → AnswersValid (λ (a : StatusBody). a.status) (stage.decide path ip url method)
    pub validators :
        (stage : CustomChecksStage en)
        → layer.custom_checks ≡ some stage
        → (path method : Text) (ip body : Option Text)
        → AnswersValid (unwrap_or 200) (stage.decide_custom_validators path method ip body)
    pub custom_request :
        (stage : CustomChecksStage en)
        → layer.custom_checks ≡ some stage
        → (method path : Text) (ip body : Option Text)
        → AnswersValid (unwrap_or 200) (stage.decide_custom_request method path ip body)
    pub geo :
        (stage : GeoStage en)
        → layer.geo_blocking ≡ some stage
        → (ip : Option en.Ip) (gate : Option IpGateDecision)
        → AnswersValid (λ (a : StageResponse). a.status) (stage.decide ip gate)
    pub cloud :
        (stage : CloudProviderStage en)
        → layer.cloud_provider ≡ some stage
        → (ip : Option en.Ip) (gate : Option IpGateDecision)
        → AnswersValid (λ (a : StageResponse). a.status) (stage.decide ip gate)
    pub cloud_route :
        (stage : CloudProviderStage en)
        → layer.cloud_provider ≡ some stage
        → (ip : Option en.Ip) (gate : Option IpGateDecision) (selectors : en.CloudSelectors)
        → AnswersValid (λ (a : StageResponse). a.status) (stage.decide_route ip gate selectors)
    pub agents :
        (stage : UserAgentStage en)
        → layer.user_agent ≡ some stage
        → (ip : Option en.Ip) (gate : Option IpGateDecision) (path agent : Option Text)
          (finding : Option ThreatFinding)
        → AnswersValid (λ (a : StageResponse). a.status) (stage.decide ip gate path agent finding)

  -- What the code's other two `expect`s rely on.
  pub record Expected (layer : GuardLayer en) : Type 0 where
    pub limits : RateLimitStage en
    pub stage : layer.stage ≡ some limits
    pub cors :
        (processor : ResponseProcessor en)
        → layer.response_processor ≡ some processor
        → processor.cors_enabled ≡ true
        → processor.cors ≢ none
