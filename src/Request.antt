-- ===== src/Request.antt =====
-- The request: `http::request::Parts` by what the program reads, and the facts that
-- `RequestFacts::extract` of `src/stages.rs` takes from it.
pub mod Host
use tower_guard_rs.Base.{
  ℕ, Text, codes, Bool, Option, none, some, List, [], ◌∷◌, ◌++◌, filter_map, map_option, map_or,
  and_then, unwrap_or,
}
use tower_guard_rs.Http.{Http}
use tower_guard_rs.Engine.{Engine, IpGateDecision}
use tower_guard_rs.Engine.Stages.{RequestObservation}
use tower_guard_rs.Route.{RouteConfig}

module _ (en : Engine) where
  -- The extensions are a map from types to values: one field for each type that is read.
  pub record Parts : Type 0 where
    pub method : Text
    pub scheme : Option Text
    pub authority : Option Text
    pub path : Text
    pub query : Option Text
    pub headers : en.http.HeaderMap
    pub client_ip : Option en.Ip
    pub gate : Option IpGateDecision
    pub route_config : Option (RouteConfig en)
    pub route_rate_limits : Option en.RouteRateLimits
    pub route_exclusions : Option en.RouteDetectionExclusions

  pub record RequestFacts : Type 0 where
    pub ip : Option en.Ip
    pub gate : Option IpGateDecision
    pub ip_string : Text
    pub path : Text
    pub method : Text
    pub scheme : Text
    pub referer : Option Text
    pub user_agent : Option Text
    pub host : Option Text
    pub x_forwarded_proto : Option Text
    pub origin : Option Text
    pub query : Text

  unfoldable pub header_value : en.http.HeaderMap → Text → Option Text
  header_value headers name = and_then (en.http.get headers name) en.http.to_str

  abbrev text_pair : Text × en.http.HeaderValue → Option (Text × Text)
  text_pair (name, value) = map_option (λ v. (name, v)) (en.http.to_str value)

  -- The pairs whose value is text.
  unfoldable pub header_pairs : en.http.HeaderMap → List (Text × Text)
  header_pairs headers = filter_map text_pair (en.http.iter headers)

  abbrev or_else : Option Text → Option Text → Option Text
  or_else none o = o
  or_else (some t) o = some t

  unfoldable pub extract : Parts → RequestFacts
  unfolding header_value
  extract parts = record {
    ip = parts.client_ip;
    gate = parts.gate;
    ip_string = map_or [] en.ip_to_string parts.client_ip;
    path = parts.path;
    method = parts.method;
    scheme = unwrap_or (codes "http") parts.scheme;
    referer = header_value parts.headers (codes "referer");
    user_agent = header_value parts.headers (codes "user-agent");
    host = or_else parts.authority (header_value parts.headers (codes "host"));
    x_forwarded_proto = header_value parts.headers (codes "x-forwarded-proto");
    origin = header_value parts.headers (codes "origin");
    query = map_or [] (λ q. b'?' ∷ q) parts.query;
  }

  unfoldable pub https_url : RequestFacts → Text
  https_url facts = codes "https://" ++ unwrap_or [] facts.host ++ facts.path ++ facts.query

  -- `facts.ip.is_some().then_some(facts.ip_string.as_str())`.
  unfoldable pub client_text : RequestFacts → Option Text
  client_text facts = map_option (λ _. facts.ip_string) facts.ip

  abbrev with_query : Text → Option Text → Text
  with_query path none = path
  with_query path (some q) = path ++ b'?' ∷ q

  unfoldable pub request_observation : Parts → RequestObservation
  unfolding header_value
  request_observation parts = record {
    method = some parts.method;
    url = some (with_query parts.path parts.query);
    user_agent = header_value parts.headers (codes "user-agent");
  }
