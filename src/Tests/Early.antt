-- ===== src/Tests/Early.antt =====
-- The theorems about requests that `GuardService::call` of `src/service.rs` answers in front of the body, a
-- redirect to HTTPS and a CORS preflight, applied.
use tower_guard_rs.Base.{
  ℕ, ◌+◌, Text, codes, true, none, some, List, [], inl, inr, refl, contains, text_eq, stop,
  eq_ignore_ascii_case, ◌≡◌,
}
use tower_guard_rs.Http.{content_type, location_name}
use tower_guard_rs.Engine.Stages.{HttpsRedirectAnswer, ResponseProcessor}
use tower_guard_rs.Layer.{GuardLayer}
use tower_guard_rs.Route.{RouteConfig}
use tower_guard_rs.Request.{Parts, extract, https_url}
use tower_guard_rs.Response.{Response, redirect}
use tower_guard_rs.Service.Buffer.{Frame}
use tower_guard_rs.Service.RouteAccess.{resolve_route}
use tower_guard_rs.Service.Respond.{answer}
use tower_guard_rs.Service.Checks.{route_redirect}
use tower_guard_rs.Service.Call.{Service, Inner, produced, call}
use tower_guard_rs.Service.Call.Preflight.{preflight_reply, preflight_request, call-preflight}
use tower_guard_rs.Service.Call.Lenient.{HasNoRules, HasNoRules-IsUnruled, Enters}
use tower_guard_rs.Service.Call.Lenient.Redirected.{call-redirected}
use tower_guard_rs.Tests.Toy.{toy}
use tower_guard_rs.Tests.Fixtures.{bare, request, closed_gate, open_route}

abbrev moved : HttpsRedirectAnswer → Response toy Text
moved target = record {
  status = target.status;
  headers =
      toy.http.insert (toy.http.insert [] content_type toy.http.text_plain) location_name
        target.location;
  body = [];
}

-- A route that requires HTTPS, and a request over HTTP.
abbrev secure_route : RouteConfig toy
secure_route = record open_route { require_https = true; rate_limits = some none }

abbrev insecure : Parts toy
insecure = record request {
  authority = some (codes "shop.example");
  route_config = some secure_route;
}

abbrev secured : HttpsRedirectAnswer
secured = record { status = 301; location = codes "https://shop.example/pay?a=1" }

secure_route-HasNoRules : HasNoRules toy bare (extract toy insecure) insecure secure_route
secure_route-HasNoRules = record {
  behavior = refl;
  lists = refl;
  countries = refl;
  headers = refl;
  referrer = refl;
  validators = refl;
  window = refl;
  clouds = refl;
  agents = refl;
  tiers = λ e. cc;
}

insecure-Enters : Enters toy bare (extract toy insecure) insecure (some secure_route)
unfolding extract eq_ignore_ascii_case
insecure-Enters = record {
  no_preflight = refl;
  gate = inr (inr λ gate ip on. cc);
  emergency = λ s w on. cc;
}

-- The redirect keeps the host, the path and the query.
insecure-Redirects :
    route_redirect toy bare (extract toy insecure) insecure (some secure_route) ≡ some secured
unfolding extract https_url text_eq
insecure-Redirects = refl

call-redirected_example :
    (u : ℕ) × ((inner : Service toy) (frames : List Frame)
      → call toy bare inner insecure frames 0 ≡ answer toy insecure bare (moved secured) u)
unfolding contains resolve_route redirect
call-redirected_example =
    call-redirected toy bare insecure 0 secured (moved secured) refl refl
      (HasNoRules-IsUnruled toy bare (extract toy insecure) insecure (some secure_route)
        secure_route refl secure_route-HasNoRules)
      insecure-Enters (inl (refl, insecure-Redirects))

abbrev cors_processor : ResponseProcessor toy
cors_processor = record {
  cors_enabled = true;
  cors = some tt;
  security_headers = none;
  process_usage_rules = λ _ _ _ _ w. ([], w);
  process = λ _ bits _ w. (bits, w + 1);
}

-- The gate denies every client, and the preflight is answered all the same.
abbrev crossing : GuardLayer toy
crossing = record bare { ip_gate = some closed_gate; response_processor = some cors_processor }

abbrev preflight : Parts toy
preflight = record request { method = codes "OPTIONS" }

abbrev mirror : Parts toy → Text → ℕ → Inner toy × ℕ
mirror parts body w = (produced (record { status = 200; headers = []; body = body }), w)

call-preflight_example : call toy crossing mirror preflight [] 0 ≡ (
  stop (preflight_reply toy (toy.build_preflight_response tt (preflight_request toy preflight))),
  0,
)
unfolding contains eq_ignore_ascii_case text_eq
call-preflight_example =
    call-preflight toy crossing preflight 0 mirror [] cors_processor tt refl refl refl refl refl
      refl refl
