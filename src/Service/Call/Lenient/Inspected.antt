-- ===== src/Service/Call/Lenient/Inspected.antt =====
-- The checks of `GuardService::call` of `src/service.rs` that see the buffered body, for a request that they
-- have no answer for.
use tower_guard_rs.Base.{
  Text, true, Option, none, some, List, Goes, pure-Goes, perform-Goes, bind-Goes, map_or-Goes,
  unset-Goes, Bool-cases, ◌≡◌, ◌≢◌, ◌⊎◌, inl, inr, refl, arith,
}
use tower_guard_rs.Engine.{Engine, RequestScanVerdict}
use tower_guard_rs.Engine.Stages.{RateLimitStage}
use tower_guard_rs.Route.{RouteConfig}
use tower_guard_rs.Layer.{GuardLayer}
use tower_guard_rs.Request.{Parts, RequestFacts}
use tower_guard_rs.Service.Buffer.{Frame, non_empty, whole, buffer_body}
use tower_guard_rs.Service.Buffer.Laws.{readable, buffer_body_lem}
use tower_guard_rs.Service.Scan.{ScanOutcome, clean, threat, failed, scan_request}
use tower_guard_rs.Service.Checks.{block_on, body_cap, buffer_check}
use tower_guard_rs.Service.RouteGates.{
  route_headers_auth, headers_auth_check, referrer_check, route_validators, validators_check,
  time_window_check,
}
use tower_guard_rs.Service.EnginePass.{scan_enabled, detect, verdict_of}
use tower_guard_rs.Service.Call.{inspect}
use tower_guard_rs.Service.Call.Lenient.{IsUnruled, Tolerates, Inspects}
use tower_guard_rs.Service.Call.Lenient.Answers.{
  Answers, bind-Answers, then-Answers, failure_response-Answers,
}
use tower_guard_rs.Response.{Response, failure}

module _ (en : Engine) (layer : GuardLayer en) (facts : RequestFacts en) (parts : Parts en)
    (route : Option (RouteConfig en)) (frames : List Frame) where
  abbrev body : Option Text
  body = non_empty (readable frames)

  module _ (plain : IsUnruled en layer facts parts route)
      (h : Inspects en layer facts parts route frames) where
    buffer_check-Goes : Goes (buffer_check en layer facts parts route frames) body
    unfolding buffer_check
    buffer_check-Goes =
        let read_whole : buffer_body frames (body_cap en layer facts parts route) ≡ whole body =
          rw (buffer_body_lem frames _, h.sound) (let bound = h.within in ground arith) in
        rw (read_whole, buffer_check) (pure-Goes body)

    route_headers-Goes :
        (r : RouteConfig en) → route ≡ some r → Goes (route_headers_auth en layer facts parts r) tt
    unfolding route_headers_auth
    route_headers-Goes r e = rw ((plain r e).headers, route_headers_auth) (pure-Goes tt)

    headers_auth_check-Goes : Goes (headers_auth_check en layer facts parts route) tt
    unfolding headers_auth_check block_on
    headers_auth_check-Goes =
        bind-Goes _ _ tt tt (map_or-Goes route _ _ tt (pure-Goes tt) route_headers-Goes) (
          map_or-Goes layer.headers_auth _ _ tt (pure-Goes tt) λ stage on.
            bind-Goes _ _ none tt (perform-Goes _ none λ w. h.headers stage w on) (pure-Goes tt))

    referrer_check-Goes : Goes (referrer_check en layer facts parts route) tt
    unfolding referrer_check block_on
    referrer_check-Goes =
        bind-Goes _ _ tt tt (unset-Goes route _ _ _ tt (pure-Goes tt) λ r e. (plain r e).referrer) (
          map_or-Goes layer.referrer_gate _ _ tt (pure-Goes tt) λ stage on.
            bind-Goes _ _ none tt (perform-Goes _ none λ w. h.referrer stage w on) (pure-Goes tt))

    route_validators-Goes :
        (r : RouteConfig en)
        → route ≡ some r
        → Goes (route_validators en layer facts parts body r) tt
    unfolding route_validators
    route_validators-Goes r e = rw ((plain r e).validators, route_validators) (pure-Goes tt)

    validators_check-Goes : Goes (validators_check en layer facts parts route body) tt
    unfolding validators_check
    validators_check-Goes =
        bind-Goes _ _ tt tt (map_or-Goes route _ _ tt (pure-Goes tt) route_validators-Goes) (
          map_or-Goes layer.custom_checks _ _ tt (pure-Goes tt) λ stage on.
            bind-Goes _ _ none tt (perform-Goes _ none λ w. h.validators stage w on) (pure-Goes tt))

    time_window_check-Goes : Goes (time_window_check en layer facts parts route) tt
    unfolding time_window_check block_on
    time_window_check-Goes =
        bind-Goes _ _ tt tt (unset-Goes route _ _ _ tt (pure-Goes tt) λ r e. (plain r e).window) (
          map_or-Goes layer.time_window_gate _ _ tt (pure-Goes tt) λ stage on.
            bind-Goes _ _ none tt (perform-Goes _ none λ w. h.window stage w on) (pure-Goes tt))

    pub inspect-Goes :
        (verdict : Option RequestScanVerdict)
        → Goes (detect en layer facts parts route body) verdict
        → Goes (inspect en layer facts route parts frames) (body, verdict)
    unfolding inspect
    inspect-Goes verdict goes = bind-Goes _ _ body _ buffer_check-Goes (
        bind-Goes _ _ tt _ headers_auth_check-Goes (
          bind-Goes _ _ tt _ referrer_check-Goes (
            bind-Goes _ _ tt _ validators_check-Goes (
              bind-Goes _ _ tt _ time_window_check-Goes
                (bind-Goes _ _ verdict _ goes (pure-Goes (body, verdict)))))))

    -- A scan that ends the request.
    pub inspect-Answers :
        (r : Response en Text)
        → Answers en parts layer (detect en layer facts parts route body) r
        → Answers en parts layer (inspect en layer facts route parts frames) r
    unfolding inspect
    inspect-Answers r scan = then-Answers en parts layer _ _ body r buffer_check-Goes (
        then-Answers en parts layer _ _ tt r headers_auth_check-Goes (
          then-Answers en parts layer _ _ tt r referrer_check-Goes (
            then-Answers en parts layer _ _ tt r validators_check-Goes (
              then-Answers en parts layer _ _ tt r time_window_check-Goes
                (bind-Answers en parts layer _ _ r scan)))))

module _ (en : Engine) (layer : GuardLayer en) (facts : RequestFacts en) (parts : Parts en)
    (route : Option (RouteConfig en)) (limits : RateLimitStage en) where
  -- What the scan hands on: a threat only under passive mode.
  abbrev pub Tolerated : Option RequestScanVerdict → Type 0
  Tolerated verdict = (verdict ≡ none) ⊎ (limits.passive_mode ≡ true)

  verdict_of-Goes :
      (o : ScanOutcome)
      → o ≢ failed
      → ((verdict : RequestScanVerdict) → o ≡ threat verdict → limits.passive_mode ≡ true)
      → (verdict : Option RequestScanVerdict) × Goes (verdict_of en layer facts parts o) verdict
        × Tolerated verdict
  verdict_of-Goes clean k passive = (none, pure-Goes none, inl refl)
  verdict_of-Goes failed k passive = absurd (k refl)
  verdict_of-Goes (threat found) k passive =
      (some found, pure-Goes (some found), inr (passive found refl))

  pub detect-Goes :
      (frames : List Frame)
      → Tolerates en layer facts parts route frames limits
      → (verdict : Option RequestScanVerdict) × Goes
          (detect en layer facts parts route (non_empty (readable frames)))
          verdict
        × Tolerated verdict
  unfolding detect
  detect-Goes frames h = elim (Bool-cases (scan_enabled en layer facts parts route)) [
    | inl on ↦
        let (verdict, goes, ok) =
          verdict_of-Goes (scan_request en parts (non_empty (readable frames)) layer)
            (h.no_panic on) (λ v. h.observed v on) in
        (verdict, rw (on, detect) goes, ok)
    | inr off ↦ (none, rw (off, detect) (pure-Goes none), inl refl)
  ]

module _ (en : Engine) (layer : GuardLayer en) (facts : RequestFacts en) (parts : Parts en)
    (route : Option (RouteConfig en)) where
  -- A scan that is on and finds a threat hands it on.
  pub detect-threat :
      (buffered : Option Text) (verdict : RequestScanVerdict)
      → scan_enabled en layer facts parts route ≡ true
      → scan_request en parts buffered layer ≡ threat verdict
      → Goes (detect en layer facts parts route buffered) (some verdict)
  unfolding detect
  detect-threat buffered verdict on found = rw (on, found, detect) (pure-Goes (some verdict))

  -- A scan that is on and panics ends the request.
  pub detect-Answers :
      (buffered : Option Text)
      → scan_enabled en layer facts parts route ≡ true
      → scan_request en parts buffered layer ≡ failed
      → Answers en parts layer (detect en layer facts parts route buffered) (failure en)
  unfolding detect
  detect-Answers buffered on panics =
      rw (on, panics, detect) (failure_response-Answers en parts layer)

  verdict_of-handed :
      (o : ScanOutcome)
      → o ≢ failed
      → (verdict : Option RequestScanVerdict) × Goes (verdict_of en layer facts parts o) verdict
  verdict_of-handed clean k = (none, pure-Goes none)
  verdict_of-handed failed k = absurd (k refl)
  verdict_of-handed (threat found) k = (some found, pure-Goes (some found))

  -- A scan that does not panic hands on what it has found.
  pub detect-handed :
      (buffered : Option Text)
      → (scan_enabled en layer facts parts route ≡ true
          → scan_request en parts buffered layer ≢ failed)
      → (verdict : Option RequestScanVerdict) × Goes
          (detect en layer facts parts route buffered)
          verdict
  unfolding detect
  detect-handed buffered quiet = elim (Bool-cases (scan_enabled en layer facts parts route)) [
    | inl on ↦
        let (verdict, goes) = verdict_of-handed (scan_request en parts buffered layer) (quiet on) in
        (verdict, rw (on, detect) goes)
    | inr off ↦ (none, rw (off, detect) (pure-Goes none))
  ]
