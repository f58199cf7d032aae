-- ===== src/Service/Call/Lenient/Answered.antt =====
-- Which answer `GuardService::call` of `src/service.rs` gives to a request that one check ends, for any layer.
use tower_guard_rs.Base.{
  ◌<◌, ◌≤◌, Text, codes, true, false, Option, some, List, length, contains, eq_ignore_ascii_case,
  bind-next, ◌≡◌, ◌≢◌, ◌⊎◌, inl, inr, ◌∙◌,
}
use tower_guard_rs.Engine.{Engine, RequestScanVerdict}
use tower_guard_rs.Engine.Stages.{RateLimitStage, StageResponse, RequestObservation}
use tower_guard_rs.Route.{RouteConfig, bypassed}
use tower_guard_rs.Layer.{GuardLayer}
use tower_guard_rs.Request.{Parts, RequestFacts, extract}
use tower_guard_rs.Response.{Response, oversize, failure, stage}
use tower_guard_rs.Service.Buffer.{Frame, non_empty}
use tower_guard_rs.Service.Buffer.Laws.{readable, has_error}
use tower_guard_rs.Service.Scan.{ScanOutcome, scan_request}
use tower_guard_rs.Service.Respond.{answer}
use tower_guard_rs.Service.Checks.{body_cap}
use tower_guard_rs.Service.EnginePass.{scan_enabled}
use tower_guard_rs.Service.Call.{Service, screen, guarded, call}
use tower_guard_rs.Service.Call.Reach.{route_of, call-guarded}
use tower_guard_rs.Service.Call.Lenient.{IsUnruled, Admits, Inspects, Enforces}
use tower_guard_rs.Service.Call.Lenient.Admitted.{preflight-Goes}
use tower_guard_rs.Service.Call.Lenient.Enforced.{blocked_400}
use tower_guard_rs.Service.Call.Lenient.Answers.{Answers, bind-eq}
use tower_guard_rs.Service.Call.Lenient.Screened.{
  unbuffered-Answers, buffer_check-oversize, buffer_check-broken, panic-Answers, threat-Answers,
  banned-Answers,
}

module _ (en : Engine) (layer : GuardLayer en) where
  module _ (parts : Parts en) (frames : List Frame) (w : en.World) where
    abbrev pub facts : RequestFacts en
    facts = extract en parts

    abbrev pub route : Option (RouteConfig en)
    route = route_of en layer parts

    -- The call answers with the response, after the response-side pass, and does not reach the wrapped
    -- service.
    abbrev pub IsAnswered : Response en Text → Type 0
    IsAnswered r =
        (u : en.World) × ((inner : Service en)
          → call en layer inner parts frames w ≡ answer en parts layer r u)

    pub screened :
        (r : Response en Text)
        → contains layer.exclude_paths parts.path ≡ false
        → eq_ignore_ascii_case facts.method (codes "OPTIONS") ≡ false
        → Answers en parts layer (screen en layer facts route parts frames) r
        → IsAnswered r
    unfolding guarded extract
    screened r kept other h =
        let (u, entered) = (preflight-Goes en layer facts parts other).runs w in
        let (v, ended) = h.runs u in
        (
          v,
          λ inner.
              call-guarded en layer parts frames w inner kept
              ∙ (bind-next _ _ w entered ∙ bind-eq en parts layer _ _ r u v ended),
        )

    -- A body that is longer than the cap is answered with 413 and its message, to a banned or rate-limited
    -- client too and whatever stages are installed behind the buffer: for a path that is not excluded, no preflight request, a route without
    -- rules of its own, and no answer of the checks in front of the body. The answer goes through the
    -- response-side pass, and the wrapped service is not reached.
    pub call-oversize :
        contains layer.exclude_paths parts.path ≡ false
        → IsUnruled en layer facts parts route
        → Admits en layer facts parts route
        → body_cap en layer facts parts route < length (readable frames)
        → IsAnswered (oversize en)
    call-oversize kept plain admits long = screened (oversize en) kept admits.enters.no_preflight (
        unbuffered-Answers en layer facts parts route frames (oversize en) plain admits
          (λ gated. buffer_check-oversize en layer facts parts route frames gated long))

    -- What the guard answers with 500: a body within the cap that breaks off, or a scan that is on and
    -- panics, where no check in front of it answers.
    abbrev pub Fails : Type 0
    Fails =
        ((length (readable frames) ≤ body_cap en layer facts parts route)
          × (has_error frames ≡ true))
        ⊎ (Inspects en layer facts parts route frames
            × (scan_enabled en layer facts parts route ≡ true)
            × (scan_request en parts (non_empty (readable frames)) layer ≡ ScanOutcome.failed))

    failed-Answers :
        IsUnruled en layer facts parts route
        → Admits en layer facts parts route
        → Fails
        → Answers en parts layer (screen en layer facts route parts frames) (failure en)
    failed-Answers plain admits (inl (within, cut)) =
        unbuffered-Answers en layer facts parts route frames (failure en) plain admits
          (λ gated. buffer_check-broken en layer facts parts route frames gated within cut)
    failed-Answers plain admits (inr (inspects, on, panics)) =
        panic-Answers en layer facts parts route frames plain admits inspects on panics

    -- A request whose body breaks off within the cap, or over which the engine panics, is answered with
    -- 500 and its message, to a banned or rate-limited client too and whatever stages are installed behind: for a path that is not excluded, no
    -- preflight request, a route without rules of its own, and no answer of the checks in front. The
    -- answer goes through the response-side pass, and the wrapped service is not reached.
    pub call-failure :
        contains layer.exclude_paths parts.path ≡ false
        → IsUnruled en layer facts parts route
        → Admits en layer facts parts route
        → Fails
        → IsAnswered (failure en)
    call-failure kept plain admits fails =
        screened (failure en) kept admits.enters.no_preflight (failed-Answers plain admits fails)

    -- A request in which the scan finds a threat is answered with 400 and the layer's body for it, where
    -- the rate-limit stage is not passive: for a path that is not excluded, no preflight request, a route
    -- without rules of its own, a scan that is on, no answer of a check in front of the detection block,
    -- and 400 a valid status. The answer goes through the response-side pass, and the wrapped service is
    -- not reached.
    pub call-detected :
        (limits : RateLimitStage en) (verdict : RequestScanVerdict)
        → contains layer.exclude_paths parts.path ≡ false
        → layer.stage ≡ some limits
        → limits.passive_mode ≡ false
        → en.http.valid_status 400 ≡ true
        → IsUnruled en layer facts parts route
        → Admits en layer facts parts route
        → Inspects en layer facts parts route frames
        → Enforces en layer facts parts route limits
        → scan_enabled en layer facts parts route ≡ true
        → scan_request en parts (non_empty (readable frames)) layer ≡ ScanOutcome.threat verdict
        → IsAnswered (blocked_400 en layer)
    call-detected limits verdict kept installed active valid plain admits inspects enforces on
          found =
        screened (blocked_400 en layer) kept admits.enters.no_preflight (
          threat-Answers en layer facts parts route frames limits verdict installed active valid
            plain admits inspects enforces on found)

    -- In the service the bans are asked in front of the countries, the cloud providers and the user agents:
    -- a banned client is answered with the ban stage's answer, also where the scan finds a threat and
    -- whatever stages are installed behind: for a path that is not excluded, no preflight request, a route
    -- without rules of its own that does not bypass bans, a scan that does not panic, and no answer of a
    -- check in front of the ban stage. The answer goes through the response-side pass, and the wrapped
    -- service is not reached.
    pub call-banned :
        (limits : RateLimitStage en) (blocked : StageResponse)
        → contains layer.exclude_paths parts.path ≡ false
        → layer.stage ≡ some limits
        → bypassed en route (codes "ip_ban") ≡ false
        → ((o : Option RequestObservation) (v : en.World)
            → (limits.decide_bans_observed parts.client_ip o v).0 ≡ some blocked)
        → IsUnruled en layer facts parts route
        → Admits en layer facts parts route
        → Inspects en layer facts parts route frames
        → (scan_enabled en layer facts parts route ≡ true
            → scan_request en parts (non_empty (readable frames)) layer ≢ ScanOutcome.failed)
        → IsAnswered (stage en blocked)
    unfolding extract
    call-banned limits blocked kept installed asked banned plain admits inspects quiet =
        screened (stage en blocked) kept admits.enters.no_preflight (
          banned-Answers en layer facts parts route frames limits blocked installed asked banned
            plain admits inspects quiet)
