-- ===== src/Tests/Lenient.antt =====
-- The theorems about a request that one check of `GuardService::call` of `src/service.rs` ends, or none,
-- applied.
use tower_guard_rs.Base.{
  codes, true, none, some, List, [], ◌∷◌, inl, inr, refl, arith, contains, ℕ, ◌≤◌, length, Option,
  eq_ignore_ascii_case, ◌≡◌, ◌⊎◌,
}
use tower_guard_rs.Engine.{IpGateDecision, allowed}
use tower_guard_rs.Engine.Stages.{
  RateLimitStage, StageResponse, IpGateConfig, RequestObservation, ThreatFinding,
}
use tower_guard_rs.Layer.{GuardLayer}
use tower_guard_rs.Request.{extract}
use tower_guard_rs.Route.{bypassed}
use tower_guard_rs.Response.{oversize, failure, stage}
use tower_guard_rs.Service.Buffer.{Frame, payload, broken}
use tower_guard_rs.Service.Buffer.Laws.{readable}
use tower_guard_rs.Service.RouteAccess.{resolve_route}
use tower_guard_rs.Service.Scan.{judge, scan_request}
use tower_guard_rs.Service.Respond.{answer}
use tower_guard_rs.Service.Checks.{body_cap}
use tower_guard_rs.Service.EnginePass.{scan_enabled}
use tower_guard_rs.Service.Call.{Service, call}
use tower_guard_rs.Service.Call.Lenient.{IsUnruled, Enters, Admits, Inspects, Tolerates, Enforces}
use tower_guard_rs.Service.Call.Lenient.Enforced.{blocked_400}
use tower_guard_rs.Service.Call.Lenient.Forwarded.{IsReached, call-lenient}
use tower_guard_rs.Service.Call.Lenient.Answered.{
  IsAnswered, call-oversize, call-failure, call-detected, call-banned,
}
use tower_guard_rs.Service.Call.Lenient.Denied.{denial, denial_pass, call-denied}
use tower_guard_rs.Tests.Toy.{toy}
use tower_guard_rs.Tests.Fixtures.{limits, sqli, bare, request, closed_gate}

abbrev body : List Frame
body = payload (codes "a=1") ∷ []

abbrev passive_limits : RateLimitStage toy
passive_limits = record limits { passive_mode = true }

-- Everything is observed only: the gate denies every client, and every scan finds a threat.
abbrev observing : GuardLayer toy
observing = record bare {
  ip_gate = some closed_gate;
  passive_mode = true;
  stage = some passive_limits;
  scan_fn = λ _ _ _. some sqli;
}

-- A request without a route, and layers that have no stage but the rate-limit stage.
unruled : (layer : GuardLayer toy) → IsUnruled toy layer (extract toy request) request none
unruled layer r e = cc

module _ (layer : GuardLayer toy) where
  abbrev OnlyObserves : Type 0
  OnlyObserves =
      (layer.passive_mode ≡ true)
      ⊎ ((gate : IpGateConfig toy) (ip : ℕ)
          → layer.ip_gate ≡ some gate
          → request.client_ip ≡ some ip
          → (d : IpGateDecision) × (gate.evaluate ip ≡ allowed d))

  enters :
      OnlyObserves
      → layer.emergency_mode ≡ none
      → Enters toy layer (extract toy request) request none
  unfolding extract eq_ignore_ascii_case
  enters gate calm = record { no_preflight = refl; gate = inr gate; emergency = λ s w on. cc }

  admits :
      OnlyObserves
      → layer.emergency_mode ≡ none
      → layer.https_enforcement ≡ none
      → Admits toy layer (extract toy request) request none
  admits gate calm plain = record {
    enters = enters gate calm;
    https = λ s w on. cc;
    own_https = λ off. refl;
  }

  inspects :
      length (readable body) ≤ body_cap toy layer (extract toy request) request none
      → layer.headers_auth ≡ none
      → layer.referrer_gate ≡ none
      → layer.custom_checks ≡ none
      → layer.time_window_gate ≡ none
      → Inspects toy layer (extract toy request) request none body
  inspects small headers referrer checks window = record {
    within = small;
    sound = refl;
    headers = λ s w on. cc;
    referrer = λ s w on. cc;
    validators = λ s w on. cc;
    window = λ s w on. cc;
  }

  enforces :
      (stage : RateLimitStage toy)
      → ((o : Option RequestObservation) (w : ℕ)
          → (stage.decide_bans_observed (some 7) o w).0 ≡ none)
      → ((t : Option (Unit {0})) (g : Option IpGateDecision) (f : Option ThreatFinding)
            (o : Option RequestObservation) (w : ℕ)
          → (stage.decide_tiers_observed (some 7) (some (codes "/pay")) t g f o w).0 ≡ none)
      → layer.geo_blocking ≡ none
      → layer.cloud_provider ≡ none
      → layer.user_agent ≡ none
      → Enforces toy layer (extract toy request) request none stage
  unfolding extract
  enforces stage bans tiers geo cloud agents = record {
    bans = λ o w kept. bans o w;
    geo = λ s w kept on. cc;
    cloud = λ s w kept on. cc;
    agents = λ s f w on. cc;
    tiers = λ t g f o w kept. tiers t g f o w;
  }

observed : Tolerates toy observing (extract toy request) request none body passive_limits
unfolding scan_request judge
observed = record { no_panic = λ on e. cc; observed = λ v on e. refl }

call-lenient_example : IsReached toy observing passive_limits request body 0
unfolding contains resolve_route body_cap
call-lenient_example =
    call-lenient toy observing passive_limits request body 0 refl refl (unruled observing)
      (admits observing (inl refl) refl refl) (inspects observing (omega arith) refl refl refl refl)
      observed (enforces observing passive_limits (λ _ _. refl) (λ _ _ _ _ _. refl) refl refl refl)
      (λ s w on. cc)

-- The cap of the fixture is eight bytes.
abbrev long : List Frame
long = payload (codes "12345") ∷ payload (codes "6789") ∷ []

abbrev cut : List Frame
cut = payload (codes "12") ∷ broken ∷ []

call-oversize_example : IsAnswered toy bare request long 0 (oversize toy)
unfolding contains resolve_route body_cap
call-oversize_example =
    call-oversize toy bare request long 0 refl (unruled bare)
      (admits bare (inr λ gate ip on. cc) refl refl) (omega arith)

call-failure_example : IsAnswered toy bare request cut 0 (failure toy)
unfolding contains resolve_route body_cap
call-failure_example =
    call-failure toy bare request cut 0 refl (unruled bare)
      (admits bare (inr λ gate ip on. cc) refl refl) (inl (omega arith, refl))

abbrev flagging : GuardLayer toy
flagging = record bare { scan_fn = λ _ _ _. some sqli }

call-detected_example : IsAnswered toy flagging request body 0 (blocked_400 toy flagging)
unfolding contains resolve_route body_cap scan_enabled bypassed scan_request judge
call-detected_example =
    call-detected toy flagging request body 0 limits sqli refl refl refl refl (unruled flagging)
      (admits flagging (inr λ gate ip on. cc) refl refl)
      (inspects flagging (omega arith) refl refl refl refl)
      (enforces flagging limits (λ _ _. refl) (λ _ _ _ _ _. refl) refl refl refl) refl refl

abbrev banned : StageResponse
banned = record {
  status = 403;
  body = codes "IP banned";
  custom_body = none;
  retry_after = some 60;
}

abbrev banning_limits : RateLimitStage toy
banning_limits = record limits { decide_bans_observed = λ _ _ w. (some banned, w) }

-- The client is banned, and the scan finds a threat too.
abbrev banning : GuardLayer toy
banning = record flagging { stage = some banning_limits }

call-banned_example : IsAnswered toy banning request body 0 (stage toy banned)
unfolding contains resolve_route body_cap bypassed scan_request judge
call-banned_example =
    call-banned toy banning request body 0 banning_limits banned refl refl refl (λ _ _. refl)
      (unruled banning) (admits banning (inr λ gate ip on. cc) refl refl)
      (inspects banning (omega arith) refl refl refl refl) (λ on e. cc)

abbrev gated : GuardLayer toy
gated = record bare { ip_gate = some closed_gate }

call-denied_example :
    (v : ℕ) × ((inner : Service toy) (frames : List Frame)
      → call toy gated inner request frames 0
        ≡ answer toy request gated (denial toy gated request v) (denial_pass toy gated request v).1)
unfolding contains resolve_route bypassed eq_ignore_ascii_case
call-denied_example =
    call-denied toy gated request closed_gate 7 (codes "blacklisted") 0 refl refl (unruled gated)
      refl refl refl refl refl refl
