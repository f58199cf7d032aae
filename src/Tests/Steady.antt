-- ===== src/Tests/Steady.antt =====
-- The theorem that `GuardService::call` of `src/service.rs` replies, applied.
use tower_guard_rs.Base.{
  codes, true, none, some, [], ◌∷◌, refl, ◌≡◌, ◌≢◌, stop, subst, ◌+◌, Option, Text,
}
use mathlib.Core.Option.{some-injective}
use tower_guard_rs.Engine.{StatusBody}
use tower_guard_rs.Engine.Stages.{EmergencyModeStage, ResponseProcessor}
use tower_guard_rs.Layer.{GuardLayer}
use tower_guard_rs.Service.Buffer.{payload, broken}
use tower_guard_rs.Service.Respond.{Reply}
use tower_guard_rs.Service.Call.{Service, produced, call}
use tower_guard_rs.Service.Call.Steady.{Valid, AnswersValid, StatusesValid, StagesValid, Expected}
use tower_guard_rs.Service.Call.Steady.Whole.{call-replies}
use tower_guard_rs.Tests.Toy.{toy}
use tower_guard_rs.Tests.Fixtures.{limits, bare, request}

-- Emergency mode for everybody, CORS with a configuration, and an engine that panics over every request.
abbrev closed : EmergencyModeStage toy
closed = record {
  decide = λ ip text path method w. (some (record { status = 503; body = codes "Closed" }), w + 1);
}

abbrev cross_origin : ResponseProcessor toy
cross_origin = record {
  cors_enabled = true;
  cors = some tt;
  security_headers = none;
  process_usage_rules = λ _ _ _ _ w. ([], w);
  process = λ _ bits _ w. (bits, w);
}

abbrev guarding : GuardLayer toy
guarding = record bare {
  emergency_mode = some closed;
  response_processor = some cross_origin;
  scan_fn = λ _ _ _. none;
}

toy-StatusesValid : StatusesValid toy
toy-StatusesValid = record {
  own_200 = refl;
  own_301 = refl;
  own_400 = refl;
  own_403 = refl;
  headers_auth = λ rules verifiers headers a e. cc;
  referrer_missing = refl;
  referrer_invalid = refl;
  time_window = refl;
  preflight = λ cors r. refl;
  validators = λ named context w status e. cc;
}

-- The statuses of the emergency stage, and the configuration of the response processor.
abbrev AnswersInEmergency : EmergencyModeStage toy → Type 0
AnswersInEmergency stage =
    (ip : Option Text) (text path method : Text)
    → AnswersValid toy (λ (a : StatusBody). a.status) (stage.decide ip text path method)

abbrev HasCors : ResponseProcessor toy → Type 0
HasCors processor = processor.cors_enabled ≡ true → processor.cors ≢ none

closed-AnswersInEmergency : AnswersInEmergency closed
closed-AnswersInEmergency ip text path method w a e =
    subst (λ (o : StatusBody). Valid toy o.status) (some-injective _ _ e) refl

cross_origin-HasCors : HasCors cross_origin
cross_origin-HasCors enabled = cc

guarding-StagesValid : StagesValid toy guarding
guarding-StagesValid = record {
  emergency =
      λ stage on. subst AnswersInEmergency (some-injective _ _ on) closed-AnswersInEmergency;
  https = λ stage on. cc;
  https_route = λ stage on. cc;
  headers_auth = λ stage on. cc;
  referrer = λ stage on. cc;
  time_window = λ stage on. cc;
  validators = λ stage on. cc;
  custom_request = λ stage on. cc;
  geo = λ stage on. cc;
  cloud = λ stage on. cc;
  cloud_route = λ stage on. cc;
  agents = λ stage on. cc;
}

guarding-Expected : Expected toy guarding
guarding-Expected = record {
  limits = limits;
  stage = refl;
  cors = λ processor on. subst HasCors (some-injective _ _ on) cross_origin-HasCors;
}

abbrev service : Service toy
service parts body w = (produced (record { status = 200; headers = []; body = body }), w)

call-replies_example :
    (reply : Reply toy) × ((call toy guarding service request
        (payload (codes "a=") ∷ broken ∷ [])
        0).0
      ≡ stop reply)
call-replies_example =
    call-replies toy guarding toy-StatusesValid guarding-StagesValid guarding-Expected service
      request (payload (codes "a=") ∷ broken ∷ []) 0
