-- ===== src/Service/Call/Lenient/Redirected.antt =====
-- What `GuardService::call` of `src/service.rs` answers to a request that is sent on to HTTPS, for any layer.
use tower_guard_rs.Base.{
  Text, false, Option, none, some, List, contains, perform, ◌>>=◌, pure-Goes, perform-Goes,
  bind-next, subst, sym, ap, inl, inr, ◌≡◌, ◌⊎◌, ◌∙◌,
}
use tower_guard_rs.Engine.{Engine, IpGateDecision}
use tower_guard_rs.Engine.Stages.{HttpsRedirectAnswer, HttpsEnforcementStage}
use tower_guard_rs.Route.{RouteConfig}
use tower_guard_rs.Layer.{GuardLayer}
use tower_guard_rs.Request.{Parts, RequestFacts, extract}
use tower_guard_rs.Response.{Response, redirect}
use tower_guard_rs.Service.Buffer.{Frame}
use tower_guard_rs.Service.Respond.{answer, finish_generated, from_parts}
use tower_guard_rs.Service.Call.{Service, admit, screen, guarded, call}
use tower_guard_rs.Service.Call.Reach.{route_of, call-guarded}
use tower_guard_rs.Service.Call.Lenient.{IsUnruled, Enters}
use tower_guard_rs.Service.Call.Lenient.Admitted.{
  preflight-Goes, usage_rules-Goes, route_ip_access-Goes, route_country_access-Goes,
  emergency_check-Goes,
}
use tower_guard_rs.Service.Call.Lenient.Attributed.{ip_gate_check-Goes}
use tower_guard_rs.Service.Call.Lenient.Gated.{with_gate, Enters-with_gate}
use tower_guard_rs.Service.Checks.{stage_redirect, route_redirect, redirect_on, https_check}
use tower_guard_rs.Service.Call.Lenient.Answers.{
  Answers, bind-eq, answer-Answers, then-Answers, bind-Answers,
}

module _ (en : Engine) (layer : GuardLayer en) (facts : RequestFacts en) (parts : Parts en)
    (route : Option (RouteConfig en)) where
  -- The HTTPS stage's redirect, or without a stage the route's own.
  abbrev pub Redirects : HttpsRedirectAnswer → Type 0
  Redirects target =
      ((layer.https_enforcement ≡ none) × (route_redirect en layer facts parts route ≡ some target))
      ⊎ ((stage : HttpsEnforcementStage en) × (layer.https_enforcement ≡ some stage)
          × ((w : en.World) → (stage_redirect en layer facts parts route stage w).0 ≡ some target))

  module _ (target : HttpsRedirectAnswer) (r : Response en Text)
      (made : redirect en target ≡ some r) where
    redirect_on-Answers :
        (gated : Parts en)
        → Answers en gated layer (redirect_on en layer facts gated (some target)) r
    redirect_on-Answers gated =
        rw made
          (then-Answers en gated layer _ _ r r (pure-Goes r) (answer-Answers en gated layer r))

    https_check-own :
        (gated : Parts en)
        → layer.https_enforcement ≡ none
        → https_check en layer facts gated route
          ≡ redirect_on en layer facts gated (route_redirect en layer facts gated route)
    unfolding https_check
    https_check-own gated off = simp (off, https_check)

    https_check-stage :
        (gated : Parts en) (stage : HttpsEnforcementStage en)
        → layer.https_enforcement ≡ some stage
        → https_check en layer facts gated route ≡ (
            perform (stage_redirect en layer facts gated route stage)
            >>= redirect_on en layer facts gated)
    unfolding https_check
    https_check-stage gated stage on = simp (on, https_check)

    https_check-Answers :
        (gated : Parts en)
        → Redirects target
        → Answers en gated layer (https_check en layer facts gated route) r
    https_check-Answers gated (inl (off, own)) =
        subst (λ m. Answers en gated layer m r)
          (sym (https_check-own gated off ∙ ap (redirect_on en layer facts gated) own))
          (redirect_on-Answers gated)
    https_check-Answers gated (inr (stage, on, found)) =
        subst (λ m. Answers en gated layer m r) (sym (https_check-stage gated stage on))
          (then-Answers en gated layer _ _ (some target) r (perform-Goes _ (some target) found)
            (redirect_on-Answers gated))

    admit-Answers :
        IsUnruled en layer facts parts route
        → Enters en layer facts parts route
        → Redirects target
        → (g : Option IpGateDecision) × Answers en
            (with_gate en parts g)
            layer
            (admit en layer facts route parts)
            r
    unfolding admit
    admit-Answers plain enters redirects =
        let (g, passes) = ip_gate_check-Goes en layer parts facts route enters in
        let gated = with_gate en parts g in
        let kept = Enters-with_gate en layer facts parts route g enters in
        (
          g,
          then-Answers en gated layer _ _ tt r (usage_rules-Goes en layer facts parts route plain) (
              then-Answers en gated layer _ _ false r
                (route_ip_access-Goes en layer facts parts route plain)
                (then-Answers en gated layer _ _ false r
                  (route_country_access-Goes en layer facts parts route plain)
                  (then-Answers en gated layer _ _ gated r passes (
                    then-Answers en gated layer _ _ tt r
                      (emergency_check-Goes en layer facts gated route kept)
                      (bind-Answers en gated layer _ _ r (https_check-Answers gated redirects)))))),
        )

module _ (en : Engine) (layer : GuardLayer en) (parts : Parts en) (w : en.World) where
  -- A request that the HTTPS stage redirects, or, where there is no such stage, its route, is answered with
  -- the redirect, whatever stages are installed behind: for a path that is not excluded, no preflight
  -- request, a route without rules of its own but the redirect, no answer of the gate or of emergency
  -- mode, and a redirect whose status is valid. The answer goes through the response-side pass, and
  -- neither the wrapped service nor the body is asked.
  pub call-redirected :
      (target : HttpsRedirectAnswer) (r : Response en Text)
      → contains layer.exclude_paths parts.path ≡ false
      → redirect en target ≡ some r
      → IsUnruled en layer (extract en parts) parts (route_of en layer parts)
      → Enters en layer (extract en parts) parts (route_of en layer parts)
      → Redirects en layer (extract en parts) parts (route_of en layer parts) target
      → (u : en.World) × ((inner : Service en) (frames : List Frame)
          → call en layer inner parts frames w ≡ answer en parts layer r u)
  unfolding guarded screen extract answer finish_generated from_parts
  call-redirected target r path made plain enters redirects =
      let facts = extract en parts in
      let route = route_of en layer parts in
      let (w1, entered) = (preflight-Goes en layer facts parts enters.no_preflight).runs w in
      let (g, ends) =
        admit-Answers en layer facts parts route target r made plain enters redirects in
      let (u, ended) = ends.runs w1 in
      (
        u,
        λ inner frames.
            call-guarded en layer parts frames w inner path
            ∙ (bind-next _ _ w entered
                ∙ bind-eq en parts layer _ _ r w1 u (bind-eq en parts layer _ _ r w1 u ended)),
      )
