-- ===== src/Service/Call/Lenient/Screened.antt =====
-- The checks of `GuardService::call` of `src/service.rs` as a whole, for a request that one of them ends.
use tower_guard_rs.Base.{◌<◌, ◌≤◌, Text, codes, true, false, Option, some, List, length, ◌≡◌, ◌≢◌}
use tower_guard_rs.Engine.{Engine, IpGateDecision, RequestScanVerdict}
use tower_guard_rs.Engine.Stages.{RateLimitStage, StageResponse, RequestObservation}
use tower_guard_rs.Route.{RouteConfig, bypassed}
use tower_guard_rs.Layer.{GuardLayer}
use tower_guard_rs.Request.{Parts, RequestFacts}
use tower_guard_rs.Response.{Response, oversize, failure, stage}
use tower_guard_rs.Service.Buffer.{Frame, non_empty}
use tower_guard_rs.Service.Buffer.Laws.{
  readable, has_error, buffer_body-oversize, buffer_body-broken,
}
use tower_guard_rs.Service.Scan.{ScanOutcome, scan_request, surfaces}
use tower_guard_rs.Service.Respond.{answer, finish_generated, from_parts}
use tower_guard_rs.Service.Checks.{body_cap, buffer_check}
use tower_guard_rs.Service.EnginePass.{scan_enabled}
use tower_guard_rs.Service.Call.{inspect, screen}
use tower_guard_rs.Service.Call.Lenient.{IsUnruled, Admits, Inspects, Enforces}
use tower_guard_rs.Service.Call.Lenient.Gated.{
  with_gate, IsUnruled-with_gate, Inspects-with_gate, Enforces-with_gate,
}
use tower_guard_rs.Service.Call.Lenient.Admitted.{admit-Goes}
use tower_guard_rs.Service.Call.Lenient.Inspected.{
  inspect-Goes, inspect-Answers, detect-Answers, detect-threat, detect-handed,
}
use tower_guard_rs.Service.Call.Lenient.Enforced.{blocked_400, enforce-Answers, enforce-banned}
use tower_guard_rs.Service.Call.Lenient.Answers.{
  Answers, bind-Answers, then-Answers, oversize_response-Answers, failure_response-Answers,
}

module _ (en : Engine) (layer : GuardLayer en) where
  module _ (facts : RequestFacts en) (parts : Parts en) (route : Option (RouteConfig en))
      (frames : List Frame) (r : Response en Text) where
    -- The response-side pass reads nothing that the gate has put into the parts.
    screen-Answers :
        (g : Option IpGateDecision)
        → Answers en (with_gate en parts g) layer (screen en layer facts route parts frames) r
        → Answers en parts layer (screen en layer facts route parts frames) r
    unfolding answer finish_generated from_parts
    screen-Answers g h = record { runs = h.runs }

  module _ (facts : RequestFacts en) (parts : Parts en) (route : Option (RouteConfig en))
      (frames : List Frame) where
    -- A body that cannot be buffered.
    pub unbuffered-Answers :
        (r : Response en Text)
        → IsUnruled en layer facts parts route
        → Admits en layer facts parts route
        → ((gated : Parts en)
            → Answers en gated layer (buffer_check en layer facts gated route frames) r)
        → Answers en parts layer (screen en layer facts route parts frames) r
    unfolding screen inspect
    unbuffered-Answers r plain admits ends =
        let (g, first) = admit-Goes en layer facts parts route plain admits in
        let gated = with_gate en parts g in
        screen-Answers facts parts route frames r g (
          then-Answers en gated layer _ _ _ r first
            (bind-Answers en gated layer _ _ r (bind-Answers en gated layer _ _ r (ends gated))))

    pub buffer_check-oversize :
        (gated : Parts en)
        → body_cap en layer facts parts route < length (readable frames)
        → Answers en gated layer (buffer_check en layer facts gated route frames) (oversize en)
    unfolding buffer_check body_cap
    buffer_check-oversize gated long =
        rw (buffer_body-oversize frames _ long) (oversize_response-Answers en gated layer)

    pub buffer_check-broken :
        (gated : Parts en)
        → length (readable frames) ≤ body_cap en layer facts parts route
        → has_error frames ≡ true
        → Answers en gated layer (buffer_check en layer facts gated route frames) (failure en)
    unfolding buffer_check body_cap
    buffer_check-broken gated within cut =
        rw (buffer_body-broken frames _ within cut) (failure_response-Answers en gated layer)

    pub panic-Answers :
        IsUnruled en layer facts parts route
        → Admits en layer facts parts route
        → Inspects en layer facts parts route frames
        → scan_enabled en layer facts parts route ≡ true
        → scan_request en parts (non_empty (readable frames)) layer ≡ ScanOutcome.failed
        → Answers en parts layer (screen en layer facts route parts frames) (failure en)
    unfolding screen scan_enabled scan_request surfaces
    panic-Answers plain admits inspects on panics =
        let (g, first) = admit-Goes en layer facts parts route plain admits in
        let gated = with_gate en parts g in
        screen-Answers facts parts route frames (failure en) g (
          then-Answers en gated layer _ _ _ (failure en) first (
            bind-Answers en gated layer _ _ (failure en) (
              inspect-Answers en layer facts gated route frames
                (IsUnruled-with_gate en layer facts parts route g plain)
                (Inspects-with_gate en layer facts parts route g frames inspects) (failure en)
                (detect-Answers en layer facts gated route _ on panics))))

    pub threat-Answers :
        (limits : RateLimitStage en) (verdict : RequestScanVerdict)
        → layer.stage ≡ some limits
        → limits.passive_mode ≡ false
        → en.http.valid_status 400 ≡ true
        → IsUnruled en layer facts parts route
        → Admits en layer facts parts route
        → Inspects en layer facts parts route frames
        → Enforces en layer facts parts route limits
        → scan_enabled en layer facts parts route ≡ true
        → scan_request en parts (non_empty (readable frames)) layer ≡ ScanOutcome.threat verdict
        → Answers en parts layer (screen en layer facts route parts frames) (blocked_400 en layer)
    unfolding screen scan_enabled scan_request surfaces
    threat-Answers limits verdict installed active valid plain admits inspects enforces on found =
        let (g, first) = admit-Goes en layer facts parts route plain admits in
        let gated = with_gate en parts g in
        let r = blocked_400 en layer in
        let unruled = IsUnruled-with_gate en layer facts parts route g plain in
        let second =
          inspect-Goes en layer facts gated route frames unruled
            (Inspects-with_gate en layer facts parts route g frames inspects) (some verdict)
            (detect-threat en layer facts gated route _ verdict on found) in
        screen-Answers facts parts route frames r g (
          then-Answers en gated layer _ _ _ r first (
            then-Answers en gated layer _ _ _ r second (
              bind-Answers en gated layer _ _ r (
                enforce-Answers en layer facts gated route limits unruled
                  (Enforces-with_gate en layer facts parts route g limits enforces) _ verdict
                  installed active valid))))

    pub banned-Answers :
        (limits : RateLimitStage en) (blocked : StageResponse)
        → layer.stage ≡ some limits
        → bypassed en route (codes "ip_ban") ≡ false
        → ((o : Option RequestObservation) (w : en.World)
            → (limits.decide_bans_observed facts.ip o w).0 ≡ some blocked)
        → IsUnruled en layer facts parts route
        → Admits en layer facts parts route
        → Inspects en layer facts parts route frames
        → (scan_enabled en layer facts parts route ≡ true
            → scan_request en parts (non_empty (readable frames)) layer ≢ ScanOutcome.failed)
        → Answers en parts layer (screen en layer facts route parts frames) (stage en blocked)
    unfolding screen scan_enabled scan_request surfaces
    banned-Answers limits blocked installed kept banned plain admits inspects quiet =
        let (g, first) = admit-Goes en layer facts parts route plain admits in
        let gated = with_gate en parts g in
        let r = stage en blocked in
        let unruled = IsUnruled-with_gate en layer facts parts route g plain in
        let (verdict, scan) = detect-handed en layer facts gated route _ quiet in
        let second =
          inspect-Goes en layer facts gated route frames unruled
            (Inspects-with_gate en layer facts parts route g frames inspects) verdict scan in
        screen-Answers facts parts route frames r g (
          then-Answers en gated layer _ _ _ r first (
            then-Answers en gated layer _ _ _ r second (
              bind-Answers en gated layer _ _ r (
                enforce-banned en layer facts gated route limits _ verdict blocked installed kept
                  banned))))
