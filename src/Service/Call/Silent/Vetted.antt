-- ===== src/Service/Call/Silent/Vetted.antt =====
-- The checks between the body and the scan of `GuardService::call` of `src/service.rs`, taken together.
use tower_guard_rs.Base.{Text, Option, next, subst, ◌≡◌}
use tower_guard_rs.Engine.{Engine}
use tower_guard_rs.Route.{RouteConfig}
use tower_guard_rs.Layer.{GuardLayer}
use tower_guard_rs.Request.{Parts, RequestFacts}
use tower_guard_rs.Service.RouteGates.{
  headers_auth_check, referrer_check, validators_check, time_window_check,
}
use tower_guard_rs.Service.Call.Silent.Inspected.{
  IsVetted, headers_auth_check-Silent, headers_auth_check-route, referrer_check-Silent,
  referrer_check-route, validators_check-Silent, validators_check-route, time_window_check-Silent,
  time_window_check-route,
}

module _ (en : Engine) (layer : GuardLayer en) (facts : RequestFacts en) (parts : Parts en) where
  pub checks-IsVetted :
      (route : Option (RouteConfig en)) (buffered : Option Text) (w1 w2 w3 w4 : en.World)
      {v1 v2 v3 v4 : en.World}
      → headers_auth_check en layer facts parts route w1 ≡ (next tt, v1)
      → referrer_check en layer facts parts route w2 ≡ (next tt, v2)
      → validators_check en layer facts parts route buffered w3 ≡ (next tt, v3)
      → time_window_check en layer facts parts route w4 ≡ (next tt, v4)
      → IsVetted en layer facts parts route buffered
  checks-IsVetted route buffered w1 w2 w3 w4 {v1} {v2} {v3} {v4} h1 h2 h3 h4 = record {
    headers = headers_auth_check-Silent en layer facts parts route w1 h1;
    route_headers = λ r e.
        headers_auth_check-route en layer facts parts r w1
          (subst (λ o. headers_auth_check en layer facts parts o w1 ≡ (next tt, v1)) e h1);
    referrer = referrer_check-Silent en layer facts parts route w2 h2;
    route_domains = λ r domains e.
        referrer_check-route en layer facts parts r domains w2
          (subst (λ o. referrer_check en layer facts parts o w2 ≡ (next tt, v2)) e h2);
    validators = validators_check-Silent en layer facts parts route buffered w3 h3;
    route_validators = λ r e.
        validators_check-route en layer facts parts r buffered w3
          (subst (λ o. validators_check en layer facts parts o buffered w3 ≡ (next tt, v3)) e h3);
    route_hours = λ r restrictions e.
        time_window_check-route en layer facts parts r restrictions w4
          (subst (λ o. time_window_check en layer facts parts o w4 ≡ (next tt, v4)) e h4);
    window = time_window_check-Silent en layer facts parts route w4 h4;
  }
