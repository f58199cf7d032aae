-- ===== src/Stages.antt =====
-- The standalone stage layers of `src/stages.rs`: one check in front of a wrapped service, and the
-- layers that a configured `GuardLayer` provides, in the pipeline's order.
pub mod Order
pub mod Judged
pub mod Service
use tower_guard_rs.Base.{
  ℕ, Text, codes, Bool, Option, none, some, List, [], ◌∷◌, ◌++◌, map_or, map_option, unwrap_or,
  decimal,
}
use tower_guard_rs.Http.{retry_after_name, location_name, status_from_u16}
use tower_guard_rs.Engine.{Engine, StatusBody}
use tower_guard_rs.Engine.Stages.{
  Call, HttpsRedirectAnswer, StageResponse, EmergencyModeStage, HttpsEnforcementStage,
  HeadersAuthStage, ReferrerStage, TimeWindowStage, CustomChecksStage, GeoStage, CloudProviderStage,
  UserAgentStage, RateLimitStage,
}
use tower_guard_rs.Layer.{GuardLayer}
use tower_guard_rs.Layer.Build.{StageBuilder, rate_limit_stage}
use tower_guard_rs.Request.{Parts, RequestFacts, extract, header_pairs, https_url, client_text}
use tower_guard_rs.Request.Host.{host_of_authority}
use tower_guard_rs.Response.{Response, insert_text}

pub data StageVerdict : Type 0 where
  emergency : StatusBody → StageVerdict
  redirect : HttpsRedirectAnswer → StageVerdict
  headers_auth : StatusBody → StageVerdict
  gate : StatusBody → StageVerdict
  -- A failed validator and a custom answer carry a status or none.
  validator : Option ℕ → StageVerdict
  custom_request : Option ℕ → StageVerdict
  stage : StageResponse → StageVerdict

module _ (en : Engine) where
  pub data GuardStageLayer : Type 0 where
    emergency_layer : EmergencyModeStage en → GuardStageLayer
    https_layer : HttpsEnforcementStage en → GuardStageLayer
    headers_auth_layer : HeadersAuthStage en → GuardStageLayer
    referrer_layer : ReferrerStage en → GuardStageLayer
    custom_validators_layer : CustomChecksStage en → GuardStageLayer
    time_window_layer : TimeWindowStage en → GuardStageLayer
    bans_layer : RateLimitStage en → GuardStageLayer
    geo_layer : GeoStage en → GuardStageLayer
    cloud_layer : CloudProviderStage en → GuardStageLayer
    user_agent_layer : UserAgentStage en → GuardStageLayer
    rate_limit_layer : RateLimitStage en → GuardStageLayer
    custom_request_layer : CustomChecksStage en → GuardStageLayer

  -- `.map(StageVerdict::..)` over a call.
  abbrev verdict_as :
      {A : Type 0} → (A → StageVerdict) → Call en (Option A) → Call en (Option StageVerdict)
  verdict_as wrap m w = let (answer, w') = m w in (map_option wrap answer, w')

  -- The implementations of `Decides`, by the layer that wraps each.
  unfoldable pub decide :
      GuardStageLayer → RequestFacts en → List (Text × Text) → Call en (Option StageVerdict)
  unfolding host_of_authority
  decide (emergency_layer s) facts headers =
      verdict_as emergency (s.decide (client_text en facts) facts.ip_string facts.path facts.method)
  decide (https_layer s) facts headers = verdict_as redirect (
      s.decide facts.path facts.scheme (map_option host_of_authority facts.host)
        facts.x_forwarded_proto (https_url en facts))
  decide (headers_auth_layer s) facts headers =
      verdict_as headers_auth (s.decide facts.path headers)
  decide (referrer_layer s) facts headers =
      verdict_as gate (s.decide facts.path facts.referer facts.ip_string facts.path facts.method)
  decide (custom_validators_layer s) facts headers =
      verdict_as validator
        (s.decide_custom_validators facts.path facts.method (client_text en facts) none)
  decide (time_window_layer s) facts headers =
      verdict_as gate (s.decide facts.path facts.ip_string facts.path facts.method)
  decide (bans_layer s) facts headers = verdict_as stage (s.decide_bans_observed facts.ip none)
  decide (geo_layer s) facts headers = verdict_as stage (s.decide facts.ip facts.gate)
  decide (cloud_layer s) facts headers = verdict_as stage (s.decide facts.ip facts.gate)
  decide (user_agent_layer s) facts headers =
      verdict_as stage (s.decide facts.ip facts.gate (some facts.path) facts.user_agent none)
  decide (rate_limit_layer s) facts headers =
      verdict_as stage
        (s.decide_tiers_observed facts.ip (some facts.path) none facts.gate none none)
  decide (custom_request_layer s) facts headers =
      verdict_as custom_request
        (s.decide_custom_request facts.method facts.path (client_text en facts) none)

  -- The body type of the wrapped service, and how it is made of a text.
  module _ {B : Type 0} (from_text : Text → B) where
    -- A status that is no status code is answered as 403.
    unfoldable pub render_block : ℕ → Text → Option ℕ → Response en B
    unfolding insert_text
    render_block status body retry_after = record {
      status = unwrap_or 403 (status_from_u16 en.http status);
      headers =
          map_or en.http.no_headers
            (λ seconds. insert_text en en.http.no_headers retry_after_name (decimal seconds))
            retry_after;
      body = from_text body;
    }

    -- `none` is a panic of the status's `expect`.
    unfoldable pub render_redirect : HttpsRedirectAnswer → Option (Response en B)
    unfolding insert_text
    render_redirect answer =
        map_option
          (λ status. record {
            status = status;
            headers = insert_text en en.http.no_headers location_name answer.location;
            body = from_text [];
          })
          (status_from_u16 en.http answer.status)

    unfoldable pub render_verdict : StageVerdict → Option (Response en B)
    unfolding render_block render_redirect
    render_verdict (emergency answer) = some (render_block answer.status answer.body none)
    render_verdict (redirect answer) = render_redirect answer
    render_verdict (headers_auth answer) = some (render_block answer.status answer.body none)
    render_verdict (gate answer) = some (render_block answer.status answer.body none)
    render_verdict (validator status) = some (render_block (unwrap_or 200 status) [] none)
    render_verdict (custom_request status) = some (render_block (unwrap_or 200 status) [] none)
    render_verdict (stage answer) = some (
        render_block answer.status (map_or answer.body (λ custom. custom) answer.custom_body)
          answer.retry_after)

    -- What a service's future resolves to; `none` is a panic.
    pub data Outcome : Type 0 where
      answered : Response en B → Outcome
      errored : en.InnerError → Outcome

    -- A service over a request body that the stage layers never read.
    abbrev pub Tower : Type 0 → Type 0
    Tower Body = Parts en → Body → en.World → Option Outcome × en.World

    abbrev pub settle : {Body : Type 0} → Option StageVerdict → Tower Body → Tower Body
    settle none inner parts body w = inner parts body w
    settle (some verdict) inner parts body w = (map_option answered (render_verdict verdict), w)

    unfoldable pub pass_gate : {Body : Type 0} → GuardStageLayer → Tower Body → Tower Body
    unfolding decide extract header_pairs
    pass_gate stage_layer inner parts body w =
        let facts = extract en parts in
        let (verdict, w') = decide stage_layer facts (header_pairs en parts.headers) w in
        settle verdict inner parts body w'

  -- `if let Some(stage) = .. { layers.push(..) }`.
  abbrev pub slot : Option GuardStageLayer → List GuardStageLayer
  slot none = []
  slot (some layer) = layer ∷ []

  module _ (layer : GuardLayer en) (builder : StageBuilder en) where
    abbrev pub middle : List GuardStageLayer
    middle =
        slot (map_option geo_layer layer.geo_blocking)
        ++ (slot (map_option cloud_layer layer.cloud_provider)
            ++ slot (map_option user_agent_layer layer.user_agent))

    abbrev pub limited : Option (RateLimitStage en) → List GuardStageLayer
    limited none = middle
    limited (some limits) = bans_layer limits ∷ (middle ++ rate_limit_layer limits ∷ [])

    unfoldable pub provided_layers : List GuardStageLayer
    unfolding rate_limit_stage
    provided_layers =
        slot (map_option emergency_layer layer.emergency_mode)
        ++ (slot (map_option https_layer layer.https_enforcement)
            ++ (slot (map_option headers_auth_layer layer.headers_auth)
                ++ (slot (map_option referrer_layer layer.referrer_gate)
                    ++ (slot (map_option custom_validators_layer layer.custom_checks)
                        ++ (slot (map_option time_window_layer layer.time_window_gate)
                            ++ (limited (rate_limit_stage en layer builder)
                                ++ slot (map_option custom_request_layer layer.custom_checks)))))))
