-- ===== src/Stages/Service.antt =====
-- `GuardStageService` of `src/stages.rs`: what `Layer::layer` makes of each stage layer, and the
-- dispatch of its readiness and its calls.
use tower_guard_rs.Base.{Text, List, [], ◌∷◌, ◌≡◌, refl, ap, ◌∙◌}
use tower_guard_rs.Engine.{Engine}
use tower_guard_rs.Engine.Stages.{
  EmergencyModeStage, HttpsEnforcementStage, HeadersAuthStage, ReferrerStage, TimeWindowStage,
  CustomChecksStage, GeoStage, CloudProviderStage, UserAgentStage, RateLimitStage,
}
use tower_guard_rs.Request.{Parts}
use tower_guard_rs.Stages.{
  GuardStageLayer, emergency_layer, https_layer, headers_auth_layer, referrer_layer,
  custom_validators_layer, time_window_layer, bans_layer, geo_layer, cloud_layer, user_agent_layer,
  rate_limit_layer, custom_request_layer, Tower, pass_gate,
}
use tower_guard_rs.Stages.Judged.{reversed, fold, fold-snoc, judged, gate-judged}

pub record Gate (S T : Type 0) : Type 0 where
  pub inner : S
  pub decides : T

-- `Poll<Result<(), E>>`.
pub data Readiness (E : Type 0) : Type 0 where
  pending : Readiness E
  ready : Readiness E
  broken : E → Readiness E

module _ (en : Engine) where
  pub record RateLimitBans : Type 0 where
    pub bans : RateLimitStage en

  pub record RateLimitTiers : Type 0 where
    pub tiers : RateLimitStage en

  pub record CustomRequestPosition : Type 0 where
    pub position : CustomChecksStage en

  pub data GuardStageService (S : Type 0) : Type 0 where
    emergency_service : Gate S (EmergencyModeStage en) → GuardStageService S
    https_service : Gate S (HttpsEnforcementStage en) → GuardStageService S
    headers_auth_service : Gate S (HeadersAuthStage en) → GuardStageService S
    referrer_service : Gate S (ReferrerStage en) → GuardStageService S
    custom_validators_service : Gate S (CustomChecksStage en) → GuardStageService S
    time_window_service : Gate S (TimeWindowStage en) → GuardStageService S
    bans_service : Gate S RateLimitBans → GuardStageService S
    geo_service : Gate S (GeoStage en) → GuardStageService S
    cloud_service : Gate S (CloudProviderStage en) → GuardStageService S
    user_agent_service : Gate S (UserAgentStage en) → GuardStageService S
    rate_limit_service : Gate S RateLimitTiers → GuardStageService S
    custom_request_service : Gate S CustomRequestPosition → GuardStageService S

  -- `Layer::layer`.
  unfoldable pub layer_over : {S : Type 0} → GuardStageLayer en → S → GuardStageService S
  layer_over (emergency_layer stage) service =
      emergency_service (record { inner = service; decides = stage })
  layer_over (https_layer stage) service =
      https_service (record { inner = service; decides = stage })
  layer_over (headers_auth_layer stage) service =
      headers_auth_service (record { inner = service; decides = stage })
  layer_over (referrer_layer stage) service =
      referrer_service (record { inner = service; decides = stage })
  layer_over (custom_validators_layer stage) service =
      custom_validators_service (record { inner = service; decides = stage })
  layer_over (time_window_layer stage) service =
      time_window_service (record { inner = service; decides = stage })
  layer_over (bans_layer stage) service =
      bans_service (record { inner = service; decides = record { bans = stage } })
  layer_over (geo_layer stage) service = geo_service (record { inner = service; decides = stage })
  layer_over (cloud_layer stage) service =
      cloud_service (record { inner = service; decides = stage })
  layer_over (user_agent_layer stage) service =
      user_agent_service (record { inner = service; decides = stage })
  layer_over (rate_limit_layer stage) service =
      rate_limit_service (record { inner = service; decides = record { tiers = stage } })
  layer_over (custom_request_layer stage) service =
      custom_request_service (record { inner = service; decides = record { position = stage } })

  module _ {B : Type 0} (from_text : Text → B) (Body : Type 0) where
    -- A wrapped service: its readiness and its calls.
    pub record Wrapped : Type 0 where
      pub is_ready : en.World → Readiness en.InnerError × en.World
      pub dispatch : Tower en from_text Body

    unfoldable pub poll_ready :
        GuardStageService Wrapped → en.World → Readiness en.InnerError × en.World
    poll_ready (emergency_service gate) = gate.inner.is_ready
    poll_ready (https_service gate) = gate.inner.is_ready
    poll_ready (headers_auth_service gate) = gate.inner.is_ready
    poll_ready (referrer_service gate) = gate.inner.is_ready
    poll_ready (custom_validators_service gate) = gate.inner.is_ready
    poll_ready (time_window_service gate) = gate.inner.is_ready
    poll_ready (bans_service gate) = gate.inner.is_ready
    poll_ready (geo_service gate) = gate.inner.is_ready
    poll_ready (cloud_service gate) = gate.inner.is_ready
    poll_ready (user_agent_service gate) = gate.inner.is_ready
    poll_ready (rate_limit_service gate) = gate.inner.is_ready
    poll_ready (custom_request_service gate) = gate.inner.is_ready

    unfoldable pub call : GuardStageService Wrapped → Tower en from_text Body
    unfolding pass_gate
    call (emergency_service gate) =
        pass_gate en from_text (emergency_layer gate.decides) gate.inner.dispatch
    call (https_service gate) =
        pass_gate en from_text (https_layer gate.decides) gate.inner.dispatch
    call (headers_auth_service gate) =
        pass_gate en from_text (headers_auth_layer gate.decides) gate.inner.dispatch
    call (referrer_service gate) =
        pass_gate en from_text (referrer_layer gate.decides) gate.inner.dispatch
    call (custom_validators_service gate) =
        pass_gate en from_text (custom_validators_layer gate.decides) gate.inner.dispatch
    call (time_window_service gate) =
        pass_gate en from_text (time_window_layer gate.decides) gate.inner.dispatch
    call (bans_service gate) =
        pass_gate en from_text (bans_layer gate.decides.bans) gate.inner.dispatch
    call (geo_service gate) = pass_gate en from_text (geo_layer gate.decides) gate.inner.dispatch
    call (cloud_service gate) =
        pass_gate en from_text (cloud_layer gate.decides) gate.inner.dispatch
    call (user_agent_service gate) =
        pass_gate en from_text (user_agent_layer gate.decides) gate.inner.dispatch
    call (rate_limit_service gate) =
        pass_gate en from_text (rate_limit_layer gate.decides.tiers) gate.inner.dispatch
    call (custom_request_service gate) =
        pass_gate en from_text (custom_request_layer gate.decides.position) gate.inner.dispatch

    -- A stage's service as a service to be wrapped again.
    abbrev pub wrapped : GuardStageService Wrapped → Wrapped
    wrapped service = record { is_ready = poll_ready service; dispatch = call service }

    call-layer_over :
        (stage : GuardStageLayer en) (service : Wrapped)
        → wrapped (layer_over stage service) ≡ record {
          is_ready = service.is_ready;
          dispatch = pass_gate en from_text stage service.dispatch;
        }
    unfolding layer_over poll_ready call
    call-layer_over (emergency_layer stage) service = refl
    call-layer_over (https_layer stage) service = refl
    call-layer_over (headers_auth_layer stage) service = refl
    call-layer_over (referrer_layer stage) service = refl
    call-layer_over (custom_validators_layer stage) service = refl
    call-layer_over (time_window_layer stage) service = refl
    call-layer_over (bans_layer stage) service = refl
    call-layer_over (geo_layer stage) service = refl
    call-layer_over (cloud_layer stage) service = refl
    call-layer_over (user_agent_layer stage) service = refl
    call-layer_over (rate_limit_layer stage) service = refl
    call-layer_over (custom_request_layer stage) service = refl

    -- `layers.into_iter().rev().fold(inner, |service, stage| Layer::layer(&stage, service))`.
    unfoldable pub stack : List (GuardStageLayer en) → Wrapped → Wrapped
    unfolding layer_over poll_ready call
    stack layers inner =
        fold (λ service stage. wrapped (layer_over stage service)) inner (reversed layers)

    stack-step :
        (stage : GuardStageLayer en) (layers : List (GuardStageLayer en)) (inner : Wrapped)
        → stack (stage ∷ layers) inner ≡ record {
          is_ready = (stack layers inner).is_ready;
          dispatch = pass_gate en from_text stage (stack layers inner).dispatch;
        }
    unfolding stack
    stack-step stage layers inner =
        fold-snoc (λ service s. wrapped (layer_over s service)) inner (reversed layers) stage
        ∙ call-layer_over stage (stack layers inner)

    stack-ready :
        (layers : List (GuardStageLayer en)) (inner : Wrapped)
        → (stack layers inner).is_ready ≡ inner.is_ready
    unfolding stack
    stack-ready [] inner = refl
    stack-ready (stage ∷ layers) inner =
        ap (λ (s : Wrapped). s.is_ready) (stack-step stage layers inner) ∙ stack-ready layers inner

    stack-dispatch :
        (layers : List (GuardStageLayer en)) (inner : Wrapped) (parts : Parts en) (body : Body)
        (w : en.World)
        → (stack layers inner).dispatch parts body w
          ≡ judged en from_text layers inner.dispatch parts body w
    unfolding stack pass_gate
    stack-dispatch [] inner parts body w = refl
    stack-dispatch (stage ∷ layers) inner parts body w =
        ap (λ (s : Wrapped). s.dispatch parts body w) (stack-step stage layers inner)
        ∙ gate-judged en from_text _ layers (stack layers inner).dispatch inner.dispatch parts body
            _ (stack-dispatch layers inner parts body _)

    -- Services that are stacked in reverse are ready when the wrapped service is, and answer with the
    -- verdict of the first of the layers that has one, in the order of the list; where none has, the
    -- wrapped service answers.
    pub stack-judged :
        (layers : List (GuardStageLayer en)) (inner : Wrapped) (parts : Parts en) (body : Body)
        (w : en.World)
        → ((stack layers inner).is_ready w ≡ inner.is_ready w)
          × ((stack layers inner).dispatch parts body w
              ≡ judged en from_text layers inner.dispatch parts body w)
    stack-judged layers inner parts body w =
        (ap (λ wait. wait w) (stack-ready layers inner), stack-dispatch layers inner parts body w)
