-- ===== src/Service/Call/Steady/Middle.antt =====
-- The checks of `GuardService::call` of `src/service.rs` from the global gate to the scan do not panic.
use tower_guard_rs.Base.{
  Text, codes, Bool, not, ◌&&◌, Option, none, some, List, IsSteady, pure-IsSteady, if-IsSteady,
  elim-IsSteady, map_or-IsSteady, effect-IsSteady, bind-IsSteady, perform-IsSteady, Option-cases,
  inl, inr, ◌≡◌, refl, arith,
}
use tower_guard_rs.Engine.{Engine, StatusBody, IpGateVerdict, allowed, denied}
use tower_guard_rs.Engine.Stages.{HttpsRedirectAnswer, HttpsEnforcementStage}
use tower_guard_rs.Route.{RouteConfig, bypassed}
use tower_guard_rs.Layer.{GuardLayer}
use tower_guard_rs.Request.{Parts, RequestFacts}
use tower_guard_rs.Response.{Response, redirect, blocked_with_body}
use tower_guard_rs.Service.Buffer.{Frame, Buffering, whole, too_large, read}
use tower_guard_rs.Service.Gate.{
  block_response_owned, after_verdict, attributed, enforce_ip_gate, deny_or_pass, ip_gate_check,
}
use tower_guard_rs.Service.Checks.{
  block_on, emergency_check, redirect_on, route_redirect, stage_redirect, https_check, log_request,
  log_country_check, after_buffering, buffer_check,
}
use tower_guard_rs.Service.Call.Steady.{Valid, StatusesValid, StagesValid}
use tower_guard_rs.Service.Call.Steady.Entry.{
  answer-IsSteady, block_response-IsSteady, oversize_response-IsSteady, failure_response-IsSteady,
}

module _ (en : Engine) (statuses : StatusesValid en) (layer : GuardLayer en) where
  module _ (parts : Parts en) where
    block_response_owned-IsSteady :
        (body : Text) → IsSteady (block_response_owned en layer parts 403 body)
    unfolding block_response_owned blocked_with_body
    block_response_owned-IsSteady body = record { runs = λ w. ground (arith, statuses.own_403) }

    after_verdict-IsSteady :
        (verdict : IpGateVerdict) (ip : en.Ip) → IsSteady (after_verdict en layer verdict ip parts)
    unfolding after_verdict
    after_verdict-IsSteady (allowed d) ip = pure-IsSteady _
    after_verdict-IsSteady (denied reason) ip =
        if-IsSteady layer.passive_mode _ _ (λ on. pure-IsSteady _)
          (λ off.
            bind-IsSteady _ _ (effect-IsSteady _)
              λ _. bind-IsSteady _ _ (block_response_owned-IsSteady _) λ r. pure-IsSteady _)

    enforce_ip_gate-IsSteady : IsSteady (enforce_ip_gate en layer parts)
    unfolding enforce_ip_gate
    enforce_ip_gate-IsSteady =
        elim-IsSteady (attributed en layer layer.ip_gate parts.client_ip) _ _ (pure-IsSteady _)
          λ (gate, ip) on. after_verdict-IsSteady _ _

    deny_or_pass-IsSteady :
        (o : Option (Response en Text) × Parts en) → IsSteady (deny_or_pass en layer o)
    deny_or_pass-IsSteady (none, p) = pure-IsSteady p
    deny_or_pass-IsSteady (some r, p) = answer-IsSteady en p layer r

    pub ip_gate_check-IsSteady :
        (route : Option (RouteConfig en)) (skip : Bool)
        → IsSteady (ip_gate_check en layer route skip parts)
    unfolding ip_gate_check
    ip_gate_check-IsSteady route skip =
        if-IsSteady (not (bypassed en route (codes "ip")) && not skip) _ _
          (λ on. bind-IsSteady _ _ enforce_ip_gate-IsSteady deny_or_pass-IsSteady)
          (λ off. pure-IsSteady parts)

  module _ (stages : StagesValid en layer) (facts : RequestFacts en) (parts : Parts en) where
    pub block_on-IsSteady :
        (o : Option StatusBody)
        → ((a : StatusBody) → o ≡ some a → Valid en a.status)
        → IsSteady (block_on en layer facts parts o)
    unfolding block_on
    block_on-IsSteady none valid = pure-IsSteady tt
    block_on-IsSteady (some a) valid = block_response-IsSteady en parts layer _ _ (valid a refl)

    pub emergency_check-IsSteady : IsSteady (emergency_check en layer facts parts)
    unfolding emergency_check
    emergency_check-IsSteady = elim-IsSteady layer.emergency_mode _ _ (pure-IsSteady tt) λ stage on.
        perform-IsSteady _ _ λ w. block_on-IsSteady _ (stages.emergency stage on _ _ _ _ w)

    redirect_on-IsSteady :
        (o : Option HttpsRedirectAnswer)
        → ((a : HttpsRedirectAnswer) → o ≡ some a → Valid en a.status)
        → IsSteady (redirect_on en layer facts parts o)
    unfolding redirect
    redirect_on-IsSteady none valid = pure-IsSteady tt
    redirect_on-IsSteady (some a) valid =
        rw (valid a refl)
          (bind-IsSteady _ _ (pure-IsSteady _) λ r. answer-IsSteady en parts layer r)

    route_redirect-Valid :
        (route : Option (RouteConfig en)) (a : HttpsRedirectAnswer)
        → route_redirect en layer facts parts route ≡ some a
        → Valid en a.status
    route_redirect-Valid route a e = ground (arith, statuses.own_301)

    stage_redirect-Valid :
        (route : Option (RouteConfig en)) (stage : HttpsEnforcementStage en)
        → layer.https_enforcement ≡ some stage
        → (w : en.World) (a : HttpsRedirectAnswer)
        → (stage_redirect en layer facts parts route stage w).0 ≡ some a
        → Valid en a.status
    stage_redirect-Valid none stage on = stages.https stage on _ _ _ _ _
    stage_redirect-Valid (some route) stage on = stages.https_route stage on _ _ _ _ _ _

    pub https_check-IsSteady :
        (route : Option (RouteConfig en)) → IsSteady (https_check en layer facts parts route)
    unfolding https_check
    https_check-IsSteady route =
        elim-IsSteady layer.https_enforcement _ _
          (redirect_on-IsSteady _ (route_redirect-Valid route))
          λ stage on.
            perform-IsSteady _ _ λ w. redirect_on-IsSteady _ (stage_redirect-Valid route stage on w)

    pub log_request-IsSteady : IsSteady (log_request en layer facts parts)
    unfolding log_request
    log_request-IsSteady =
        map_or-IsSteady layer.request_logging _ _ (pure-IsSteady tt) λ stage on. effect-IsSteady _

    pub log_country_check-IsSteady : IsSteady (log_country_check en layer facts parts)
    unfolding log_country_check
    log_country_check-IsSteady = elim (Option-cases layer.observability) [
      | inl off ↦ rw (off, log_country_check) (pure-IsSteady tt)
      | inr (o, on) ↦ elim (Option-cases layer.geo_blocking) [
        | inl none_there ↦ rw (on, none_there, log_country_check) (pure-IsSteady tt)
        | inr (stage, there) ↦ rw (on, there, log_country_check) (effect-IsSteady _)
      ]
    ]

    after_buffering-IsSteady : (o : Buffering) → IsSteady (after_buffering en layer facts parts o)
    after_buffering-IsSteady (whole b) = pure-IsSteady b
    after_buffering-IsSteady (Buffering.failed too_large) =
        oversize_response-IsSteady en parts layer
    after_buffering-IsSteady (Buffering.failed read) = failure_response-IsSteady en parts layer

    pub buffer_check-IsSteady :
        (route : Option (RouteConfig en)) (frames : List Frame)
        → IsSteady (buffer_check en layer facts parts route frames)
    unfolding buffer_check
    buffer_check-IsSteady route frames = after_buffering-IsSteady _
