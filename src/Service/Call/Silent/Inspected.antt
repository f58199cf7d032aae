-- ===== src/Service/Call/Silent/Inspected.antt =====
-- What a request has shown when the checks between the body and the scan let it through: `GuardService::call`
-- of `src/service.rs`.
use tower_guard_rs.Base.{
  ℕ, Text, codes, true, false, Option, none, some, List, is_empty, map_or, and_then, from_utf8,
  unwrap_or, [], next, ◌>>=◌, through, ap, arith, refl, ◌≡◌,
}
use mathlib.Core.List.{map}
use tower_guard_rs.Engine.{
  Engine, CustomValidatorsVerdict, passed, failed, ReferrerVerdict, TimeWindow,
}
use tower_guard_rs.Engine.Stages.{
  HeadersAuthStage, ReferrerStage, CustomChecksStage, TimeWindowStage,
}
use tower_guard_rs.Route.{RouteConfig}
use tower_guard_rs.Layer.{GuardLayer}
use tower_guard_rs.Request.{Parts, RequestFacts, client_text, header_pairs}
use tower_guard_rs.Service.Respond.Laws.{block_response-ne-next}
use tower_guard_rs.Service.Checks.{block_on}
use tower_guard_rs.Service.RouteGates.{
  route_rules, header_of, route_headers_auth, headers_auth_check, route_referrer, referrer_check,
  block_status, block_failed, route_validators, validators_check, route_window, time_window_check,
}
use tower_guard_rs.Service.Call.Silent.{StageSilent, Ends, block-none, stage-Silent}
use tower_guard_rs.Service.Call.Silent.Admitted.{block_on-Ends}

module _ (en : Engine) (layer : GuardLayer en) (facts : RequestFacts en) (parts : Parts en) where
  -- The window of a route's restrictions.
  abbrev pub window_of : (Text → Option Text) → TimeWindow
  window_of restrictions = record {
    start = restrictions (codes "start");
    stop = restrictions (codes "end");
    timezone = restrictions (codes "timezone");
  }

  -- What the checks of the route and of the stages between the body and the scan have shown.
  pub record IsVetted (route : Option (RouteConfig en)) (buffered : Option Text) : Type 0 where
    pub headers :
        StageSilent en layer.headers_auth
          (λ (stage : HeadersAuthStage en). stage.decide facts.path (header_pairs en parts.headers))
    pub route_headers :
        (r : RouteConfig en)
        → route ≡ some r
        → en.has_rules (route_rules en layer facts parts r) ≡ true
        → en.decide_headers_auth
            (route_rules en layer facts parts r)
            (r.auth_verifier, r.api_key_verifier)
            (header_of en layer facts parts (header_pairs en parts.headers))
          ≡ none
    pub referrer : StageSilent en layer.referrer_gate (λ (stage : ReferrerStage en).
        stage.decide facts.path facts.referer facts.ip_string facts.path facts.method)
    pub route_domains :
        (r : RouteConfig en) (domains : List Text)
        → route ≡ some r
        → r.require_referrer ≡ some domains
        → en.decide_referrer facts.referer domains ≡ ReferrerVerdict.allowed
    pub validators : StageSilent en layer.custom_checks (λ (stage : CustomChecksStage en).
        stage.decide_custom_validators facts.path facts.method
          (client_text en facts)
          (and_then buffered from_utf8))
    pub route_validators :
        (r : RouteConfig en)
        → route ≡ some r
        → is_empty r.custom_validators ≡ false
        → (u : en.World) × ((en.decide_custom_validators
              (map (λ validator. (en.anonymous_name, validator)) r.custom_validators)
              (record {
                method = facts.method;
                path = facts.path;
                client_ip = client_text en facts;
                body = and_then buffered from_utf8;
              })
              u).0
            ≡ passed)
    pub route_hours :
        (r : RouteConfig en) (restrictions : Text → Option Text)
        → route ≡ some r
        → r.time_restrictions ≡ some restrictions
        → (now : en.Time) × (en.is_within
              (window_of restrictions)
              (en.hhmm_in_zone now (restrictions (codes "timezone")))
            ≡ true)
    pub window : StageSilent en layer.time_window_gate (λ (stage : TimeWindowStage en).
        stage.decide facts.path facts.ip_string facts.path facts.method)

  pub headers_auth_check-Silent :
      (route : Option (RouteConfig en)) (w : en.World) {v : en.World}
      → headers_auth_check en layer facts parts route w ≡ (next tt, v)
      → StageSilent en layer.headers_auth
          (λ (stage : HeadersAuthStage en). stage.decide facts.path (header_pairs en parts.headers))
  unfolding headers_auth_check
  headers_auth_check-Silent route w h = through _ _ w h λ _ u own later.
      stage-Silent en _ (block_on-Ends en layer facts parts) u layer.headers_auth _ later

  pub headers_auth_check-route :
      (r : RouteConfig en) (w : en.World) {v : en.World}
      → headers_auth_check en layer facts parts (some r) w ≡ (next tt, v)
      → en.has_rules (route_rules en layer facts parts r) ≡ true
      → en.decide_headers_auth
          (route_rules en layer facts parts r)
          (r.auth_verifier, r.api_key_verifier)
          (header_of en layer facts parts (header_pairs en parts.headers))
        ≡ none
  unfolding headers_auth_check route_headers_auth
  headers_auth_check-route r w h ruled = through _ _ w h λ _ u own later.
      block-none en (block_on en layer facts parts) (block_on-Ends en layer facts parts) w _
        (rw (ruled, route_headers_auth) at own)

  pub referrer_check-Silent :
      (route : Option (RouteConfig en)) (w : en.World) {v : en.World}
      → referrer_check en layer facts parts route w ≡ (next tt, v)
      → StageSilent en layer.referrer_gate (λ (stage : ReferrerStage en).
        stage.decide facts.path facts.referer facts.ip_string facts.path facts.method)
  unfolding referrer_check
  referrer_check-Silent route w h = through _ _ w h λ _ u own later.
      stage-Silent en _ (block_on-Ends en layer facts parts) u layer.referrer_gate _ later

  route_referrer-next :
      (domains : List Text) (w : en.World) {v : en.World}
      → route_referrer en layer facts parts domains w ≡ (next tt, v)
      → en.decide_referrer facts.referer domains ≡ ReferrerVerdict.allowed
  unfolding route_referrer
  route_referrer-next domains w h = ground (
    arith,
    block_response-ne-next en parts layer tt en.referrer_missing.status en.referrer_missing.body w,
    block_response-ne-next en parts layer tt en.referrer_invalid.status en.referrer_invalid.body w,
  )

  pub referrer_check-route :
      (r : RouteConfig en) (domains : List Text) (w : en.World) {v : en.World}
      → referrer_check en layer facts parts (some r) w ≡ (next tt, v)
      → r.require_referrer ≡ some domains
      → en.decide_referrer facts.referer domains ≡ ReferrerVerdict.allowed
  unfolding referrer_check
  referrer_check-route r domains w h required =
      through _ _ w h λ _ u own later. route_referrer-next domains w (rw required at own)

  block_failed-passed :
      (verdict : CustomValidatorsVerdict) (w : en.World) {v : en.World}
      → block_failed en layer facts parts verdict w ≡ (next tt, v)
      → verdict ≡ passed
  block_failed-passed passed w h = refl
  block_failed-passed (failed block) w h = absurd (
      block_response-ne-next en parts layer tt (unwrap_or 200 (and_then block (λ status. status)))
        [] w (ap (λ x. x.0) h))

  route_validators-passed :
      (r : RouteConfig en) (buffered : Option Text) (w : en.World) {v : en.World}
      → route_validators en layer facts parts buffered r w ≡ (next tt, v)
      → is_empty r.custom_validators ≡ false
      → (u : en.World) × ((en.decide_custom_validators
            (map (λ validator. (en.anonymous_name, validator)) r.custom_validators)
            (record {
              method = facts.method;
              path = facts.path;
              client_ip = client_text en facts;
              body = and_then buffered from_utf8;
            })
            u).0
          ≡ passed)
  unfolding route_validators ◌>>=◌
  route_validators-passed r buffered w h listed =
      (w, block_failed-passed _ _ (rw (listed, route_validators) at h))

  pub validators_check-route :
      (r : RouteConfig en) (buffered : Option Text) (w : en.World) {v : en.World}
      → validators_check en layer facts parts (some r) buffered w ≡ (next tt, v)
      → is_empty r.custom_validators ≡ false
      → (u : en.World) × ((en.decide_custom_validators
            (map (λ validator. (en.anonymous_name, validator)) r.custom_validators)
            (record {
              method = facts.method;
              path = facts.path;
              client_ip = client_text en facts;
              body = and_then buffered from_utf8;
            })
            u).0
          ≡ passed)
  unfolding validators_check
  validators_check-route r buffered w h listed =
      through _ _ w h λ _ u own later. route_validators-passed r buffered w own listed

  route_window-within :
      (restrictions : Text → Option Text) (w : en.World) {v : en.World}
      → route_window en layer facts parts restrictions w ≡ (next tt, v)
      → (now : en.Time) × (en.is_within
            (window_of restrictions)
            (en.hhmm_in_zone now (restrictions (codes "timezone")))
          ≡ true)
  unfolding route_window ◌>>=◌
  route_window-within restrictions w h =
      let (now, u) = en.now w in
      (
        now,
        ground (
          arith,
          block_response-ne-next en parts layer tt en.time_window_block.status
              en.time_window_block.body u,
        ),
      )

  pub time_window_check-route :
      (r : RouteConfig en) (restrictions : Text → Option Text) (w : en.World) {v : en.World}
      → time_window_check en layer facts parts (some r) w ≡ (next tt, v)
      → r.time_restrictions ≡ some restrictions
      → (now : en.Time) × (en.is_within
            (window_of restrictions)
            (en.hhmm_in_zone now (restrictions (codes "timezone")))
          ≡ true)
  unfolding time_window_check
  time_window_check-route r restrictions w h set =
      through _ _ w h λ _ u own later. route_window-within restrictions w (rw set at own)

  status-Ends :
      Ends en (λ (o : Option (Option ℕ)).
        map_or (λ w. (next tt, w)) (block_status en layer facts parts) o)
  status-Ends a w = block_response-ne-next en parts layer tt (unwrap_or 200 a) [] w

  pub validators_check-Silent :
      (route : Option (RouteConfig en)) (buffered : Option Text) (w : en.World) {v : en.World}
      → validators_check en layer facts parts route buffered w ≡ (next tt, v)
      → StageSilent en layer.custom_checks (λ (stage : CustomChecksStage en).
        stage.decide_custom_validators facts.path facts.method
          (client_text en facts)
          (and_then buffered from_utf8))
  unfolding validators_check
  validators_check-Silent route buffered w h =
      through _ _ w h λ _ u own later. stage-Silent en _ status-Ends u layer.custom_checks _ later

  pub time_window_check-Silent :
      (route : Option (RouteConfig en)) (w : en.World) {v : en.World}
      → time_window_check en layer facts parts route w ≡ (next tt, v)
      → StageSilent en layer.time_window_gate (λ (stage : TimeWindowStage en).
        stage.decide facts.path facts.ip_string facts.path facts.method)
  unfolding time_window_check
  time_window_check-Silent route w h = through _ _ w h λ _ u own later.
      stage-Silent en _ (block_on-Ends en layer facts parts) u layer.time_window_gate _ later
