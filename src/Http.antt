-- ===== src/Http.antt =====
-- The `http` crate as the program uses it: a parameter of the model. A `StatusCode` is its number,
-- and a `HeaderName` its lower-case text.
use tower_guard_rs.Base.{ℕ, Text, codes, Option, some, none, Bool, true, List, ◌≡◌, if◌then◌else◌}

pub record Http : Type 1 where
  pub HeaderMap : Type 0
  pub HeaderValue : Type 0
  -- `HeaderMap::new`, `get`, `iter` and `insert`.
  pub no_headers : HeaderMap
  pub get : HeaderMap → Text → Option HeaderValue
  pub iter : HeaderMap → List (Text × HeaderValue)
  pub insert : HeaderMap → Text → HeaderValue → HeaderMap
  -- An inserted value is the one that is read under its name, and leaves the other names alone.
  pub get-insert_self : (h : HeaderMap) (n : Text) (v : HeaderValue) → get (insert h n v) n ≡ some v
  -- `HeaderValue::to_str`, `HeaderValue::from_str` and `HeaderName::try_from`.
  pub to_str : HeaderValue → Option Text
  pub value_from_str : Text → Option HeaderValue
  pub name_from_str : Text → Option Text
  -- The value that the two builders of a plain-text response set.
  pub text_plain : HeaderValue
  pub text_plain_valid : value_from_str (codes "text/plain; charset=utf-8") ≡ some text_plain
  -- Whether `StatusCode::from_u16` accepts a number.
  pub valid_status : ℕ → Bool
  -- The numbers that the crate names as constants.
  pub valid_413 : valid_status 413 ≡ true
  pub valid_500 : valid_status 500 ≡ true

-- `StatusCode::from_u16(..).ok()`.
abbrev pub status_from_u16 : Http → ℕ → Option ℕ
status_from_u16 http n = if http.valid_status n then some n else none

abbrev pub content_type : Text
content_type = codes "content-type"

abbrev pub retry_after_name : Text
retry_after_name = codes "retry-after"

abbrev pub location_name : Text
location_name = codes "location"
