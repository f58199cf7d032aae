-- ===== src/Service/Call/Lenient/Denied.antt =====
-- What `GuardService::call` of `src/service.rs` answers to a client that the global gate denies, for any layer.
use tower_guard_rs.Base.{
  ℕ, Text, codes, true, false, Option, none, some, List, if_false, contains, eq_ignore_ascii_case,
  pure, next, bind-next, ◌≡◌, refl, ap, ◌∙◌,
}
use tower_guard_rs.Engine.{Engine, denied}
use tower_guard_rs.Engine.Stages.{IpGateConfig}
use tower_guard_rs.Route.{RouteConfig, bypassed}
use tower_guard_rs.Layer.{GuardLayer}
use tower_guard_rs.Request.{Parts, RequestFacts, extract}
use tower_guard_rs.Response.{Response, blocked_with_body, plain_text, forbidden_message}
use tower_guard_rs.Service.Buffer.{Frame}
use tower_guard_rs.Service.Respond.{
  Handler, generated_lane, from_parts, apply_response_processor, answer, land,
}
use tower_guard_rs.Service.Gate.{
  block_response_owned, fire_gate_hook, after_verdict, enforce_ip_gate, ip_gate_check,
}
use tower_guard_rs.Service.Call.{Service, admit, screen, guarded, call}
use tower_guard_rs.Service.Call.Reach.{route_of, call-guarded}
use tower_guard_rs.Service.Call.Lenient.{IsUnruled}
use tower_guard_rs.Service.Call.Lenient.Answers.{bind-eq}
use tower_guard_rs.Service.Call.Lenient.Admitted.{
  preflight-Goes, usage_rules-Goes, route_ip_access-Goes, route_country_access-Goes,
}
use tower_guard_rs.Service.Call.Lenient.Attributed.{judged}

module _ (en : Engine) (layer : GuardLayer en) where
  abbrev pub forbidden_body : Text
  forbidden_body = en.resolve_error_body layer.custom_error_responses 403 forbidden_message

  module _ (parts : Parts en) where
    -- The denial: a plain-text 403 with the layer's body for it, after the response-side pass of a world.
    abbrev pub denial_pass : en.World → (Option ℕ × en.http.HeaderMap) × en.World
    denial_pass v =
        apply_response_processor en layer (from_parts en parts) 403
          (plain_text en 403 forbidden_body).headers generated_lane v

    abbrev pub denial : en.World → Response en Text
    denial v = land en (plain_text en 403 forbidden_body) (denial_pass v).0

    -- The handler answers with the denial, in the world that the first pass left.
    abbrev pub Denies : {A : Type 0} → Handler en A → en.World → Type 0
    Denies m w = (v : en.World) × (m w ≡ answer en parts layer (denial v) (denial_pass v).1)

    block_response_owned-next :
        (w : en.World)
        → en.http.valid_status 403 ≡ true
        → block_response_owned en layer parts 403 forbidden_body w
          ≡ (next (denial w), (denial_pass w).1)
    unfolding block_response_owned blocked_with_body plain_text
    block_response_owned-next w valid = rw (valid, block_response_owned) refl

    after_verdict-denied :
        (ip : en.Ip) (reason : Text) (w : en.World) {r : Response en Text} {u : en.World}
        → layer.passive_mode ≡ false
        → block_response_owned en layer parts 403 forbidden_body
            (fire_gate_hook en layer parts (en.ip_to_string ip) reason w)
          ≡ (next r, u)
        → after_verdict en layer (denied reason) ip parts w ≡ (next (some r, parts), u)
    unfolding after_verdict
    after_verdict-denied ip reason w active made =
        ap (λ m. m w) (if_false (pure (none, parts)) _ active)
        ∙ (bind-next _ _ w refl ∙ bind-next _ _ _ made)

    enforce_ip_gate-denied :
        (gate : IpGateConfig en) (ip : en.Ip) (reason : Text) (w : en.World)
        {out : Option (Response en Text) × Parts en} {u : en.World}
        → layer.ip_gate ≡ some gate
        → parts.client_ip ≡ some ip
        → gate.evaluate ip ≡ denied reason
        → after_verdict en layer (denied reason) ip parts w ≡ (next out, u)
        → enforce_ip_gate en layer parts w ≡ (next out, u)
    enforce_ip_gate-denied gate ip reason w installed known denial ended =
        ap (λ m. m w) (judged en layer parts gate ip installed known)
        ∙ (ap (λ verdict. after_verdict en layer verdict ip parts w) denial ∙ ended)

    -- The hook is told, the response is made, and it goes through the response-side pass once more.
    ip_gate_check-denied :
        (route : Option (RouteConfig en)) (gate : IpGateConfig en) (ip : en.Ip) (reason : Text)
        (w : en.World)
        → layer.ip_gate ≡ some gate
        → parts.client_ip ≡ some ip
        → gate.evaluate ip ≡ denied reason
        → layer.passive_mode ≡ false
        → bypassed en route (codes "ip") ≡ false
        → en.http.valid_status 403 ≡ true
        → Denies (ip_gate_check en layer route false parts) w
    unfolding ip_gate_check
    ip_gate_check-denied route gate ip reason w installed known verdict active kept valid =
        let told = fire_gate_hook en layer parts (en.ip_to_string ip) reason w in
        (
          told,
          rw (kept, ip_gate_check)
              (bind-next _ _ w (
                enforce_ip_gate-denied gate ip reason w installed known verdict (
                  after_verdict-denied ip reason w active (block_response_owned-next told valid)))),
        )

    admit-denied :
        (facts : RequestFacts en) (route : Option (RouteConfig en)) (gate : IpGateConfig en)
        (ip : en.Ip) (reason : Text) (w : en.World)
        → IsUnruled en layer facts parts route
        → layer.ip_gate ≡ some gate
        → parts.client_ip ≡ some ip
        → gate.evaluate ip ≡ denied reason
        → layer.passive_mode ≡ false
        → bypassed en route (codes "ip") ≡ false
        → en.http.valid_status 403 ≡ true
        → Denies (admit en layer facts route parts) w
    unfolding admit
    admit-denied facts route gate ip reason w plain installed known verdict active kept valid =
        let (w1, one) = (usage_rules-Goes en layer facts parts route plain).runs w in
        let (w2, two) = (route_ip_access-Goes en layer facts parts route plain).runs w1 in
        let (w3, three) = (route_country_access-Goes en layer facts parts route plain).runs w2 in
        let (v, ended) =
          ip_gate_check-denied route gate ip reason w3 installed known verdict active kept valid in
        (
          v,
          bind-next _ _ w one
              ∙ (bind-next _ _ w1 two
                  ∙ (bind-next _ _ w2 three
                      ∙ bind-eq en parts layer _ _ (denial v) w3 (denial_pass v).1 ended)),
        )

    -- A client that the global gate denies is answered with a plain-text 403 and the layer's body for it,
    -- whatever stages are installed: for a path that is not excluded, no preflight request, passive mode
    -- off, a route without rules of its own that does not bypass the check, and 403 a valid status. The
    -- response goes through the response-side pass twice, in the second from the world that the first has
    -- left, and neither the wrapped service nor the body is asked.
    pub call-denied :
        (gate : IpGateConfig en) (ip : en.Ip) (reason : Text) (w : en.World)
        → contains layer.exclude_paths parts.path ≡ false
        → eq_ignore_ascii_case parts.method (codes "OPTIONS") ≡ false
        → IsUnruled en layer (extract en parts) parts (route_of en layer parts)
        → layer.ip_gate ≡ some gate
        → parts.client_ip ≡ some ip
        → gate.evaluate ip ≡ denied reason
        → layer.passive_mode ≡ false
        → bypassed en (route_of en layer parts) (codes "ip") ≡ false
        → en.http.valid_status 403 ≡ true
        → (v : en.World) × ((inner : Service en) (frames : List Frame)
            → call en layer inner parts frames w
              ≡ answer en parts layer (denial v) (denial_pass v).1)
    unfolding guarded screen extract
    call-denied gate ip reason w path other plain installed known verdict active kept valid =
        let facts = extract en parts in
        let route = route_of en layer parts in
        let (w1, entered) = (preflight-Goes en layer facts parts other).runs w in
        let (v, ended) =
          admit-denied facts route gate ip reason w1 plain installed known verdict active kept
            valid in
        let r = denial v in
        let u = (denial_pass v).1 in
        (
          v,
          λ inner frames.
              call-guarded en layer parts frames w inner path
              ∙ (bind-next _ _ w entered
                  ∙ bind-eq en parts layer _ _ r w1 u (bind-eq en parts layer _ _ r w1 u ended)),
        )
