-- ===== src/Service/Scan.antt =====
-- The detection scan of `src/service.rs`: the surfaces of a request, and the engine's verdict on
-- them, with its panic caught.
pub mod Laws
use tower_guard_rs.Base.{
  ℕ, Text, codes, Bool, not, ◌||◌, Option, none, some, List, [], ◌∷◌, keep, filter_map, contains,
  starts_with, text_eq, from_utf8_lossy, if◌then◌else◌, map_or, map_option, unwrap_or,
}
use tower_guard_rs.Engine.{Engine, RequestSurfaces, RequestScanVerdict}
use tower_guard_rs.Layer.{GuardLayer}
use tower_guard_rs.Request.{Parts, header_value}
use tower_guard_rs.Service.Query.{query_params}

abbrev excluded_headers : List Text
excluded_headers =
    codes "host"
    ∷ codes "user-agent"
    ∷ codes "accept"
    ∷ codes "accept-encoding"
    ∷ codes "connection"
    ∷ codes "origin"
    ∷ codes "referer"
    ∷ []

unfoldable pub is_excluded_header : Text → Bool
unfolding starts_with contains
is_excluded_header name = starts_with name (codes "sec-") || contains excluded_headers name

pub data ScanOutcome : Type 0 where
  clean : ScanOutcome
  threat : RequestScanVerdict → ScanOutcome
  failed : ScanOutcome

-- The verdict of one scan; the engine's panic, `none`, is the failed scan of `scan_request`.
unfoldable pub judge : Option RequestScanVerdict → ScanOutcome
judge none = failed
judge (some verdict) = if verdict.is_threat then threat verdict else clean

module _ (en : Engine) where
  abbrev scanned_pair : Text × en.http.HeaderValue → Option (Text × Text)
  scanned_pair (name, value) = map_option (λ v. (name, v)) (en.http.to_str value)

  unfoldable pub scanned_headers : en.http.HeaderMap → List (Text × Text)
  unfolding is_excluded_header
  scanned_headers headers = filter_map scanned_pair (
      keep (λ (h : Text × en.http.HeaderValue). not (is_excluded_header h.0))
        (en.http.iter headers))

  unfoldable pub surfaces : Parts en → Option Text → RequestSurfaces
  unfolding scanned_headers header_value query_params from_utf8_lossy text_eq
  surfaces parts body = record {
    url_path = if text_eq parts.path (codes "/") then none else some parts.path;
    query_params = query_params parts.query;
    headers = scanned_headers parts.headers;
    content_type = unwrap_or [] (header_value en parts.headers (codes "content-type"));
    raw_body = map_or [] from_utf8_lossy body;
  }

  unfoldable pub scan_request : Parts en → Option Text → GuardLayer en → ScanOutcome
  unfolding surfaces judge
  scan_request parts body layer = judge (
      layer.scan_fn (surfaces parts body)
        (en.resolve_exclusions layer.detection_exclusions parts.route_exclusions) layer.config)
