-- ===== src/Status.antt =====
-- The status route of `src/status.rs`: the readiness of the cloud providers and of the geo-ip
-- component as a JSON document.
pub mod Json
pub mod Row
pub mod Document
pub mod Service
use tower_guard_rs.Base.{
  ℕ, ◌+◌, ◌-◌, ◌/◌, ◌%◌, Text, codes, Bool, true, false, Option, none, some, List, [], ◌∷◌, ◌++◌,
  ltb, ◌==◌, if◌then◌else◌, map_or, decimal,
}
use mathlib.Core.List.{map}
use tower_guard_rs.Http.{Http, content_type}

-- The engine's `cloud_provider::ProviderStatus`.
pub record ProviderStatus : Type 0 where
  pub ready : Bool
  pub last_refreshed : Option ℕ
  pub entries : ℕ

-- What the module calls of the engine: the providers in their order, a table's row for a provider,
-- and the lifecycle manager's snapshot as `serde_json` prints it.
pub record Providers : Type 1 where
  pub valid_cloud_providers : List Text
  pub CloudIpTable : Type 0
  pub provider_status : CloudIpTable → Text → ProviderStatus
  pub IpInfoManager : Type 0
  pub status_json : IpInfoManager → Text

-- Four hexadecimal digits of a control character, `{:04x}`.
abbrev pub nibble : ℕ → ℕ
nibble d = if ltb d 10 then b'0' + d else b'a' + (d - 10)

-- One character; all that are escaped are ASCII, so a character is read as its bytes.
unfoldable pub escape : ℕ → Text
escape c =
    if c == 0x22
    then 0x5C ∷ 0x22 ∷ []
    else if c == 0x5C
    then 0x5C ∷ 0x5C ∷ []
    else if c == 0x0A
    then 0x5C ∷ b'n' ∷ []
    else if c == 0x0D
    then 0x5C ∷ b'r' ∷ []
    else if c == 0x09
    then 0x5C ∷ b't' ∷ []
    else if ltb c 0x20
    then 0x5C ∷ b'u' ∷ b'0' ∷ b'0' ∷ nibble (c / 16) ∷ nibble (c % 16) ∷ []
    else c ∷ []

unfoldable pub escape_all : Text → Text
unfolding escape
escape_all [] = []
escape_all (c ∷ s) = escape c ++ escape_all s

unfoldable pub json_string : Text → Text
unfolding escape_all
json_string value = 0x22 ∷ (escape_all value ++ 0x22 ∷ [])

module _ (pr : Providers) where
  pub record GuardStatus : Type 0 where
    pub cloud : Option pr.CloudIpTable
    pub geo_configured : Bool
    pub geo_manager : Option pr.IpInfoManager

  abbrev pub new_status : GuardStatus
  new_status = record { cloud = none; geo_configured = false; geo_manager = none }

  abbrev pub with_cloud_table : GuardStatus → pr.CloudIpTable → GuardStatus
  with_cloud_table status table = record status { cloud = some table }

  abbrev pub with_geo_configured : GuardStatus → Bool → GuardStatus
  with_geo_configured status on = record status { geo_configured = on }

  abbrev pub with_geo_manager : GuardStatus → pr.IpInfoManager → GuardStatus
  with_geo_manager status manager = record status { geo_manager = some manager }

  unfoldable pub geo_ip_status : GuardStatus → Option Text
  geo_ip_status status = elim (status.geo_manager) [
    | some manager ↦ some (pr.status_json manager)
    | none ↦ if status.geo_configured then some (codes "{\"configured\":true}") else none
  ]

  abbrev empty_row : ProviderStatus
  empty_row = record { ready = false; last_refreshed = none; entries = 0 }

  unfoldable pub cloud_provider_status : GuardStatus → List (Text × ProviderStatus)
  cloud_provider_status status =
      map
        (λ provider.
          (provider, map_or empty_row (λ table. pr.provider_status table provider) status.cloud))
        pr.valid_cloud_providers

  -- The row of one provider, from its name to its closing brace.
  unfoldable pub row_json : Text × ProviderStatus → Text
  unfolding json_string
  row_json (provider, row) =
      json_string provider
      ++ codes ":{\"ready\":"
      ++ (if row.ready then codes "true" else codes "false")
      ++ codes ",\"last_refreshed\":"
      ++ map_or (codes "null") decimal row.last_refreshed
      ++ codes ",\"entries\":"
      ++ decimal row.entries
      ++ codes "}"

  -- The loop of `payload`, which puts a comma in front of each row but the first.
  unfoldable pub rows_json : Bool → List (Text × ProviderStatus) → Text
  unfolding row_json
  rows_json first [] = []
  rows_json first (row ∷ rows) =
      (if first then [] else codes ",") ++ row_json row ++ rows_json false rows

  unfoldable pub payload : GuardStatus → Text
  unfolding geo_ip_status cloud_provider_status rows_json
  payload status =
      codes "{\"cloud_providers\":{"
      ++ rows_json true (cloud_provider_status status)
      ++ codes "},"
      ++ map_or (codes "\"geo_ip\":null") (λ geo. codes "\"geo_ip\":" ++ geo) (geo_ip_status status)
      ++ codes "}"
