-- ===== src/Service/RouteAccess.antt =====
-- The first part of `GuardService::call` in `src/service.rs`: the CORS preflight, the route's
-- carrier, its usage rules, and its lists of addresses and countries.
pub mod Laws
use tower_guard_rs.Base.{
  ℕ, Text, codes, Bool, true, false, not, ◌&&◌, ◌||◌, Option, none, some, List, [], ◌∷◌, ◌++◌, any,
  find, is_empty, is_some, if◌then◌else◌, map_or, map_option, and_then, unwrap_or,
  eq_ignore_ascii_case, Act, Flow, next, stop, panicked, pure, perform, panic, return, expect,
  ◌>>=◌, ◌>>◌,
}
use tower_guard_rs.Engine.{Engine, PreflightRequest}
use tower_guard_rs.Engine.Stages.{ResponseProcessor}
use tower_guard_rs.Route.{RouteConfig, bypassed}
use tower_guard_rs.Layer.{GuardLayer}
use tower_guard_rs.Request.{Parts, RequestFacts}
use tower_guard_rs.Response.{
  blocked_with_body, map_body, generated, forbidden_message, activity_banned_message,
}
use tower_guard_rs.Service.Respond.{
  Handler, Reply, ok, insert_all, block_response, failure_response,
}

module _ (en : Engine) where
  -- `(name, value.to_str().unwrap_or_default())` for each header.
  abbrev pub lenient_pairs : List (Text × en.http.HeaderValue) → List (Text × Text)
  lenient_pairs [] = []
  lenient_pairs ((name, value) ∷ rest) =
      (name, unwrap_or [] (en.http.to_str value)) ∷ lenient_pairs rest

  abbrev pub named : Text → List (Text × Text) → Option Text
  named name pairs =
      map_option (λ (p : Text × Text). p.1)
        (find (λ (p : Text × Text). eq_ignore_ascii_case p.0 name) pairs)

  -- The answer to a preflight goes out as it is, without the response-side pass.
  unfoldable pub preflight_answer : en.CorsConfig → Parts en → Handler en (Unit {0})
  preflight_answer cors parts =
      let request_headers = lenient_pairs (en.http.iter parts.headers) in
      if en.is_preflight parts.method request_headers
      then (let answer = en.build_preflight_response cors (record {
        origin = named (codes "origin") request_headers;
        request_method = named en.allowed_preflight_request_header request_headers;
        request_headers_raw = named (codes "access-control-request-headers") request_headers;
      }) in
          elim (blocked_with_body en answer.status_code answer.body) [
            | none ↦ panic
            | some response ↦ return (
                ok (
                  map_body en generated
                    (record response { headers = insert_all en answer.headers response.headers })))
          ])
      else pure tt

  module _ (layer : GuardLayer en) where
    unfoldable pub preflight : RequestFacts en → Parts en → Handler en (Unit {0})
    preflight facts parts =
        if eq_ignore_ascii_case facts.method (codes "OPTIONS")
        then elim (layer.response_processor) [
          | none ↦ pure tt
          | some processor ↦
              if processor.cors_enabled
              then (do cors ← expect processor.cors; preflight_answer cors parts)
              else pure tt
        ]
        else pure tt

    abbrev or_resolver : Option (RouteConfig en) → Option (RouteConfig en) → Option (RouteConfig en)
    or_resolver none resolved = resolved
    or_resolver (some carried) resolved = some carried

    -- The carrier extension wins over the resolver.
    unfoldable pub resolve_route : RequestFacts en → Parts en → Option (RouteConfig en)
    resolve_route facts parts =
        or_resolver parts.route_config
          (and_then layer.route_configs (λ resolver. resolver facts.method facts.path))

    unfoldable pub apply_usage_rules :
        RequestFacts en
        → Parts en
        → List en.BehaviorRule
        → ResponseProcessor en
        → Handler en (Unit {0})
    apply_usage_rules facts parts rules processor = do
      now ← perform en.now
      actions ← perform (
          processor.process_usage_rules (facts.method ++ b':' ∷ facts.path)
            (map_or [] en.ip_to_string facts.ip) rules now)
      if any en.is_ban actions
          then block_response en parts layer 403 activity_banned_message
          else pure tt

    unfoldable pub usage_rules :
        RequestFacts en → Parts en → Option (RouteConfig en) → Handler en (Unit {0})
    unfolding apply_usage_rules
    usage_rules facts parts route =
        let rules = map_or [] (λ (r : RouteConfig en). r.behavior_rules) route in
        if is_empty rules
        then pure tt
        else map_or (pure tt) (apply_usage_rules facts parts rules) layer.response_processor

    -- Whether the global lists are skipped: a configured route whitelist takes their place.
    unfoldable pub route_ip_access :
        RequestFacts en → Parts en → Option (RouteConfig en) → Handler en Bool
    route_ip_access facts parts none = pure false
    route_ip_access facts parts (some route) =
        if not (bypassed en (some route) (codes "ip"))
          && (is_some route.ip_whitelist || is_some route.ip_blacklist)
        then elim (en.new_route_ip_gate (unwrap_or [] route.ip_whitelist)
            (unwrap_or [] route.ip_blacklist)) [
              | none ↦ failure_response en parts layer
              | some gate ↦
                  if en.is_denied (map_or en.unrestricted (en.evaluate_route gate) facts.ip)
                  then block_response en parts layer 403 forbidden_message
                  else pure (en.whitelist_configured gate)
            ]
        else pure false

    abbrev country_gate : Option en.Ip → Option en.GeoIpHandler → Option (en.Ip × en.GeoIpHandler)
    country_gate (some ip) (some handler) = some (ip, handler)
    country_gate (some ip) none = none
    country_gate none handler = none

    -- Whether the global country stage is skipped.
    unfoldable pub route_country_access :
        RequestFacts en → Parts en → Option (RouteConfig en) → Handler en Bool
    route_country_access facts parts none = pure false
    route_country_access facts parts (some route) =
        if not (bypassed en (some route) (codes "ip"))
          && (is_some route.blocked_countries || is_some route.whitelist_countries)
        then (let lists =
              en.parse_country_lists (unwrap_or [] route.whitelist_countries)
                (unwrap_or [] route.blocked_countries) in
            elim (country_gate facts.ip layer.geo_handler) [
              | none ↦ pure false
              | some (ip, handler) ↦
                  if is_some (en.check_countries ip lists handler false)
                  then block_response en parts layer 403 forbidden_message
                  else pure (not (is_empty (en.whitelist_countries lists)))
            ])
        else pure false
