-- ===== src/Service/Call/Steady/Entry.antt =====
-- The checks of `GuardService::call` of `src/service.rs` in front of the global gate do not panic.
use tower_guard_rs.Base.{
  ℕ, Text, codes, Bool, true, false, Option, none, some, List, is_empty, if◌then◌else◌,
  eq_ignore_ascii_case, pure, expect, ◌>>=◌, IsSteady, pure-IsSteady, if-IsSteady, elim-IsSteady,
  map_or-IsSteady, bind-IsSteady, perform-IsSteady, Bool-cases, inl, inr, arith, ◌≡◌, ◌≢◌, refl,
}
use tower_guard_rs.Engine.{Engine}
use tower_guard_rs.Engine.Stages.{ResponseProcessor}
use tower_guard_rs.Route.{RouteConfig}
use tower_guard_rs.Layer.{GuardLayer}
use tower_guard_rs.Request.{Parts, RequestFacts}
use tower_guard_rs.Response.{
  Response, blocked_with_body, activity_banned_message, forbidden_message,
}
use tower_guard_rs.Service.Respond.{answer, block_response, oversize_response, failure_response}
use tower_guard_rs.Service.RouteAccess.{
  preflight_answer, preflight, apply_usage_rules, usage_rules, route_ip_access,
  route_country_access,
}
use tower_guard_rs.Service.Call.Preflight.{preflight_request}
use tower_guard_rs.Service.Call.Steady.{Valid, StatusesValid, Expected}

module _ (en : Engine) (parts : Parts en) (layer : GuardLayer en) {A : Type 0} where
  pub answer-IsSteady : (r : Response en Text) → IsSteady (answer en {A = A} parts layer r)
  unfolding answer
  answer-IsSteady r = record { runs = λ w e. cc }

  pub block_response-IsSteady :
      (status : ℕ) (body : Text)
      → Valid en status
      → IsSteady (block_response en {A = A} parts layer status body)
  unfolding block_response blocked_with_body
  block_response-IsSteady status body valid = record {
    runs = λ w. rw (valid, block_response) (λ e. cc);
  }

  pub oversize_response-IsSteady : IsSteady (oversize_response en {A = A} parts layer)
  unfolding oversize_response
  oversize_response-IsSteady = answer-IsSteady _

  pub failure_response-IsSteady : IsSteady (failure_response en {A = A} parts layer)
  unfolding failure_response
  failure_response-IsSteady = answer-IsSteady _

module _ (en : Engine) (statuses : StatusesValid en) (layer : GuardLayer en)
    (facts : RequestFacts en) (parts : Parts en) where
  preflight_answer-IsSteady : (cors : en.CorsConfig) → IsSteady (preflight_answer en cors parts)
  unfolding preflight_answer blocked_with_body
  preflight_answer-IsSteady cors = record {
    runs = λ w. ground (arith, statuses.preflight cors (preflight_request en parts));
  }

  cors-IsSteady :
      (cors : Option en.CorsConfig)
      → cors ≢ none
      → IsSteady (expect cors >>= λ c. preflight_answer en c parts)
  cors-IsSteady none configured = absurd (configured refl)
  cors-IsSteady (some cors) configured =
      bind-IsSteady _ _ (pure-IsSteady cors) (λ c. preflight_answer-IsSteady c)

  processor-IsSteady :
      (processor : ResponseProcessor en)
      → (processor.cors_enabled ≡ true → processor.cors ≢ none)
      → IsSteady (
          if processor.cors_enabled
          then (expect processor.cors >>= λ c. preflight_answer en c parts)
          else pure tt)
  processor-IsSteady processor configured =
      if-IsSteady processor.cors_enabled _ _ (λ enabled. cors-IsSteady _ (configured enabled))
        (λ off. pure-IsSteady tt)

  pub preflight-IsSteady : Expected en layer → IsSteady (preflight en layer facts parts)
  unfolding preflight
  preflight-IsSteady expected =
      elim (Bool-cases (eq_ignore_ascii_case facts.method (codes "OPTIONS"))) [
        | inl options ↦
            rw (options, preflight)
              (elim-IsSteady layer.response_processor _ _ (pure-IsSteady tt)
                λ processor on. processor-IsSteady processor (expected.cors processor on))
        | inr other ↦ rw (other, preflight) (pure-IsSteady tt)
      ]

  blocked_403 :
      {A : Type 0} (body : Text) → IsSteady (block_response en {A = A} parts layer 403 body)
  blocked_403 body = block_response-IsSteady en parts layer 403 body statuses.own_403

  apply_usage_rules-IsSteady :
      (rules : List en.BehaviorRule) (processor : ResponseProcessor en)
      → IsSteady (apply_usage_rules en layer facts parts rules processor)
  unfolding apply_usage_rules
  apply_usage_rules-IsSteady rules processor = perform-IsSteady _ _ λ w. perform-IsSteady _ _ λ v.
      record {
        runs = λ u. ground (arith, (blocked_403 {A = Unit {0}} activity_banned_message).runs u);
      }

  pub usage_rules-IsSteady :
      (route : Option (RouteConfig en)) → IsSteady (usage_rules en layer facts parts route)
  unfolding usage_rules
  usage_rules-IsSteady none = pure-IsSteady tt
  usage_rules-IsSteady (some route) = elim (Bool-cases (is_empty route.behavior_rules)) [
    | inl empty ↦ rw (empty, usage_rules) (pure-IsSteady tt)
    | inr listed ↦
        rw (listed, usage_rules)
          (map_or-IsSteady layer.response_processor _ _ (pure-IsSteady tt)
            λ processor on. apply_usage_rules-IsSteady _ processor)
  ]

  pub route_ip_access-IsSteady :
      (route : Option (RouteConfig en)) → IsSteady (route_ip_access en layer facts parts route)
  unfolding route_ip_access
  route_ip_access-IsSteady none = pure-IsSteady false
  route_ip_access-IsSteady (some route) = record {
    runs = λ w. ground (
      arith,
      (blocked_403 {A = Bool} forbidden_message).runs w,
      (failure_response-IsSteady en parts layer {A = Bool}).runs w,
    );
  }

  pub route_country_access-IsSteady :
      (route : Option (RouteConfig en)) → IsSteady (route_country_access en layer facts parts route)
  unfolding route_country_access
  route_country_access-IsSteady none = pure-IsSteady false
  route_country_access-IsSteady (some route) = record {
    runs = λ w. ground (arith, (blocked_403 {A = Bool} forbidden_message).runs w);
  }
