-- ===== src/Tests/Bodies.antt =====
-- The theorems about `src/body.rs`, the services of `src/stages.rs` and the route of `src/status.rs`,
-- applied.
use tower_guard_rs.Base.{ℕ, ◌+◌, Text, codes, true, none, some, [], ◌∷◌, length, ◌≡◌, refl}
use tower_guard_rs.Engine.Stages.{EmergencyModeStage, GeoStage}
use tower_guard_rs.Stages.{emergency_layer, geo_layer}
use tower_guard_rs.Stages.Judged.{judged}
use tower_guard_rs.Stages.Service.{pending, Wrapped, stack, stack-judged}
use tower_guard_rs.Response.{Response}
use tower_guard_rs.Http.{content_type}
use tower_guard_rs.Status.{
  Providers, ProviderStatus, GuardStatus, new_status, with_cloud_table, payload,
  cloud_provider_status, geo_ip_status,
}
use tower_guard_rs.Status.Document.{read_document, read_document-payload}
use tower_guard_rs.Status.Service.{call, new_service, call-document}
use tower_guard_rs.Tests.Toy.{toy}
use tower_guard_rs.Tests.Fixtures.{request}

abbrev siren : EmergencyModeStage toy
siren = record {
  decide = λ _ _ _ _ w. (some (record { status = 503; body = codes "down" }), w + 1);
}

abbrev map_stage : GeoStage toy
map_stage = record { decide = λ _ _ w. (none, w + 1); country_check_log = λ _ _ _ w. w }

abbrev busy : Wrapped toy (λ text. text) Text
busy = record { is_ready = λ w. (pending, w); dispatch = λ _ _ w. (none, w) }

stack-judged_example :
    ((stack toy
          (λ text. text)
          Text
          (geo_layer map_stage ∷ emergency_layer siren ∷ [])
          busy).is_ready
        0
      ≡ (pending, 0))
    × ((stack toy
            (λ text. text)
            Text
            (geo_layer map_stage ∷ emergency_layer siren ∷ [])
            busy).dispatch
          request
          (codes "x")
          0
        ≡ judged toy
            (λ text. text)
            (geo_layer map_stage ∷ emergency_layer siren ∷ [])
            busy.dispatch
            request
            (codes "x")
            0)
stack-judged_example =
    stack-judged toy (λ text. text) Text (geo_layer map_stage ∷ emergency_layer siren ∷ []) busy
      request (codes "x") 0

abbrev clouds : Providers
clouds = record {
  valid_cloud_providers = codes "AWS" ∷ codes "GCP" ∷ [];
  CloudIpTable = ℕ;
  provider_status = λ table name. record {
    ready = true;
    last_refreshed = some (1700 + table);
    entries = length name;
  };
  IpInfoManager = Unit {0};
  status_json = λ _. codes "{\"ready\":true}";
}

abbrev loaded : GuardStatus clouds
loaded = with_cloud_table clouds (new_status clouds) 5

abbrev row_of : Text → Text × ProviderStatus
row_of name = (name, record { ready = true; last_refreshed = some 1705; entries = 3 })

read_document-payload_example :
    read_document (payload clouds loaded)
    ≡ some (row_of (codes "AWS") ∷ row_of (codes "GCP") ∷ [], codes "null")
unfolding cloud_provider_status geo_ip_status
read_document-payload_example = read_document-payload clouds loaded

call-document_example :
    (r : Response toy Text) × (call toy clouds (new_service toy clouds loaded) request (codes "x")
      ≡ some r)
    × (r.status ≡ 200)
    × (toy.http.get r.headers content_type ≡ some (codes "application/json"))
    × (read_document r.body ≡ some (row_of (codes "AWS") ∷ row_of (codes "GCP") ∷ [], codes "null"))
unfolding cloud_provider_status geo_ip_status
call-document_example = call-document toy clouds loaded request (codes "x") refl
