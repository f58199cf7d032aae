-- ===== src/Examples.antt =====
-- The example servers under `examples/`: what both of them share.
pub mod Serving
pub mod SimpleApp
pub mod AdvancedApp
use tower_guard_rs.Base.{ℕ, Text, Bool, ◌&&◌, text_eq}
use tower_guard_rs.Http.{content_type}
use tower_guard_rs.Engine.{Engine}
use tower_guard_rs.Request.{Parts}
use tower_guard_rs.Response.{Response}

module _ (en : Engine) where
  -- An arm of the routers' `match (parts.method, parts.uri.path())`.
  abbrev pub is_route : Text → Text → Parts en → Bool
  is_route method path parts = text_eq parts.method method && text_eq parts.path path

-- The engine whose wrapped services answer with a `Full<Bytes>`, made by `Full::new`.
module _ (en : Engine) (full : Text → en.InnerBody) where
  -- The static content type is always a header value, so the builder's `expect` is met.
  unfoldable pub plain_response_bytes : ℕ → Text → Response en en.InnerBody
  plain_response_bytes status bytes = record {
    status = status;
    headers = en.http.insert en.http.no_headers content_type en.http.text_plain;
    body = full bytes;
  }

  unfoldable pub plain_response : ℕ → Text → Response en en.InnerBody
  unfolding plain_response_bytes
  plain_response status text = plain_response_bytes status text
