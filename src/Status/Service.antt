-- ===== src/Status/Service.antt =====
-- `GuardStatus::response` and `GuardStatusService` of `src/status.rs`.
use tower_guard_rs.Base.{Text, codes, Option, some, unwrap_or, map_option, ◌≡◌, refl}
use tower_guard_rs.Http.{content_type}
use tower_guard_rs.Engine.{Engine}
use tower_guard_rs.Request.{Parts}
use tower_guard_rs.Response.{Response}
use tower_guard_rs.Status.{Providers, GuardStatus, geo_ip_status, cloud_provider_status, payload}
use tower_guard_rs.Status.Document.{read_document, read_document-payload}

module _ (en : Engine) (pr : Providers) where
  -- `none` is a panic of the builder's `expect`.
  unfoldable pub response : GuardStatus pr → Option (Response en Text)
  unfolding payload
  response status =
      map_option
        (λ value. record {
          status = 200;
          headers = en.http.insert en.http.no_headers content_type value;
          body = payload pr status;
        })
        (en.http.value_from_str (codes "application/json"))

  pub record GuardStatusService : Type 0 where
    pub status : GuardStatus pr

  abbrev pub new_service : GuardStatus pr → GuardStatusService
  new_service status = record { status = status }

  -- The request and its body are not read, and there is no error.
  unfoldable pub call :
      {Body : Type 0} → GuardStatusService → Parts en → Body → Option (Response en Text)
  unfolding response
  call service parts body = response service.status

  -- Where `application/json` is a header value, every request is answered with 200, that content type
  -- and a document from which the reader gets the provider rows and the geo-ip component.
  pub call-document :
      {Body : Type 0} (status : GuardStatus pr) (parts : Parts en) (body : Body)
      {value : en.http.HeaderValue}
      → en.http.value_from_str (codes "application/json") ≡ some value
      → (r : Response en Text) × (call (new_service status) parts body ≡ some r)
        × (r.status ≡ 200)
        × (en.http.get r.headers content_type ≡ some value)
        × (read_document r.body
            ≡ some (
              cloud_provider_status pr status,
              unwrap_or (codes "null") (geo_ip_status pr status),
            ))
  unfolding call response
  call-document status parts body {value} valid = (
    record {
      status = 200;
      headers = en.http.insert en.http.no_headers content_type value;
      body = payload pr status;
    },
    rw valid refl,
    refl,
    en.http.get-insert_self en.http.no_headers content_type value,
    read_document-payload pr status,
  )
