-- ===== src/Response.antt =====
-- The guard's own responses (`src/response.rs`) and the body type of the service (`src/body.rs`).
pub mod Body
use tower_guard_rs.Base.{ℕ, Text, codes, Option, none, some, [], map_or, map_option, decimal}
use tower_guard_rs.Http.{content_type, retry_after_name, location_name, status_from_u16}
use tower_guard_rs.Engine.{Engine}
use tower_guard_rs.Engine.Stages.{HttpsRedirectAnswer, StageResponse}

abbrev pub blocked_message : Text
blocked_message = codes "Suspicious activity detected"

abbrev pub forbidden_message : Text
forbidden_message = codes "Forbidden"

abbrev pub activity_banned_message : Text
activity_banned_message = codes "IP has been banned"

abbrev pub oversize_message : Text
oversize_message = codes "Payload too large"

abbrev pub failure_message : Text
failure_message = codes "Security check failed"

pub data GuardBody (B : Type 0) : Type 0 where
  passthrough : B → GuardBody B
  generated : Text → GuardBody B

module _ (en : Engine) where
  pub record Response (B : Type 0) : Type 0 where
    pub status : ℕ
    pub headers : en.http.HeaderMap
    pub body : B

  -- `plain_text` and `plain_text_owned`, which differ in who owns the body. The static header value
  -- is always valid, so the builder's `expect` is met.
  unfoldable pub plain_text : ℕ → Text → Response Text
  plain_text status message = record {
    status = status;
    headers = en.http.insert en.http.no_headers content_type en.http.text_plain;
    body = message;
  }

  unfoldable pub oversize : Response Text
  unfolding plain_text
  oversize = plain_text 413 oversize_message

  unfoldable pub failure : Response Text
  unfolding plain_text
  failure = plain_text 500 failure_message

  -- An insert that is skipped where the value is no header value.
  unfoldable pub insert_text : en.http.HeaderMap → Text → Text → en.http.HeaderMap
  insert_text headers name text =
      map_or headers (en.http.insert headers name) (en.http.value_from_str text)

  -- `none` is a panic of the status's `expect`.
  unfoldable pub redirect : HttpsRedirectAnswer → Option (Response Text)
  unfolding plain_text insert_text
  redirect answer =
      map_option
        (λ status.
          let response = plain_text status [] in
          record response { headers = insert_text response.headers location_name answer.location })
        (status_from_u16 en.http answer.status)

  abbrev stage_body : StageResponse → Text
  stage_body answer = map_or answer.body (λ custom. custom) answer.custom_body

  abbrev with_retry : en.http.HeaderMap → Option ℕ → en.http.HeaderMap
  with_retry headers none = headers
  with_retry headers (some seconds) = insert_text headers retry_after_name (decimal seconds)

  unfoldable pub stage : StageResponse → Response Text
  unfolding plain_text insert_text
  stage answer =
      let response = plain_text answer.status (stage_body answer) in
      record response { headers = with_retry response.headers answer.retry_after }

  -- `none` is a panic of the status's `expect`.
  unfoldable pub blocked_with_body : ℕ → Text → Option (Response Text)
  unfolding plain_text
  blocked_with_body status message =
      map_option (λ s. plain_text s message) (status_from_u16 en.http status)

  -- `Response::map`.
  unfoldable pub map_body : {B C : Type 0} → (B → C) → Response B → Response C
  map_body f r = record { status = r.status; headers = r.headers; body = f r.body }
