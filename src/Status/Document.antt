-- ===== src/Status/Document.antt =====
-- A reader of the whole document that `GuardStatus::payload` of `src/status.rs` writes.
use tower_guard_rs.Base.{
  ℕ, zero, suc, ◌<◌, Text, codes, Bool, true, false, Option, none, some, List, [], ◌∷◌, ◌++◌,
  length, length-append, ◌≤◌, ◌==◌, if◌then◌else◌, map_or, map_option, and_then, unwrap_or,
  append_assoc, ◌≡◌, refl, ap, ◌∙◌, arith,
}
use tower_guard_rs.Status.{
  ProviderStatus, Providers, GuardStatus, geo_ip_status, cloud_provider_status, row_json, rows_json,
  payload,
}
use tower_guard_rs.Status.Row.{strip, read_row, read_row-row_json}

-- One row, and then more.
abbrev rows_behind :
    (Text → Option (List (Text × ProviderStatus) × Text))
    → Option ((Text × ProviderStatus) × Text)
    → Option (List (Text × ProviderStatus) × Text)
rows_behind more row = and_then row (λ (row : (Text × ProviderStatus) × Text).
    map_option (λ (rows : List (Text × ProviderStatus) × Text). (row.0 ∷ rows.0, rows.1))
      (more row.1))

-- The rows of an object, to its closing brace; the fuel is more than their number.
abbrev pub read_rows : ℕ → Bool → Text → Option (List (Text × ProviderStatus) × Text)
read_rows zero first s = none
read_rows (suc f) first s = elim (strip (codes "}") s) [
  | some rest ↦ some ([], rest)
  | none ↦
      and_then (strip (if first then [] else codes ",") s)
        (λ s1. rows_behind (read_rows f false) (read_row s1))
]

-- The text before a closing brace that ends it.
abbrev pub before_brace : Text → Option Text
before_brace [] = none
before_brace (c ∷ []) = if c == b'}' then some [] else none
before_brace (c ∷ d ∷ s) = map_option (λ t. c ∷ t) (before_brace (d ∷ s))

before_brace-append : (t : Text) → before_brace (t ++ codes "}") ≡ some t
before_brace-append [] = refl
before_brace-append (c ∷ []) = refl
before_brace-append (c ∷ d ∷ t) = ap (map_option (λ t. c ∷ t)) (before_brace-append (d ∷ t))

-- The geo-ip component behind the rows.
abbrev geo_behind :
    Option (List (Text × ProviderStatus) × Text) → Option (List (Text × ProviderStatus) × Text)
geo_behind rows = and_then rows (λ (rows : List (Text × ProviderStatus) × Text).
    and_then (strip (codes ",\"geo_ip\":") rows.1)
      (λ geo. map_option (λ text. (rows.0, text)) (before_brace geo)))

-- The provider rows and the text of the geo-ip component; a document has no more rows than characters.
unfoldable pub read_document : Text → Option (List (Text × ProviderStatus) × Text)
unfolding read_row
read_document s =
    and_then (strip (codes "{\"cloud_providers\":{") s)
      (λ rows. geo_behind (read_rows (suc (length rows)) true rows))

module _ (pr : Providers) where
  rows_behind-row_json :
      (more : Text → Option (List (Text × ProviderStatus) × Text)) (row : Text × ProviderStatus)
      (rows : List (Text × ProviderStatus)) (behind rest : Text) {last : Text}
      → more (behind ++ rest) ≡ some (rows, last)
      → rows_behind more (read_row ((row_json pr row ++ behind) ++ rest)) ≡ some (row ∷ rows, last)
  rows_behind-row_json more row rows behind rest h =
      ap (λ s. rows_behind more (read_row s)) (append_assoc (row_json pr row) behind rest)
      ∙ ap (rows_behind more) (read_row-row_json pr row.0 row.1 (behind ++ rest))
      ∙ ap (map_option (λ (r : List (Text × ProviderStatus) × Text). (row ∷ r.0, r.1))) h

  read_rows-rows_json :
      (f : ℕ) (first : Bool) (rows : List (Text × ProviderStatus)) (rest : Text)
      → length rows < f
      → read_rows f first (rows_json pr first rows ++ (codes "}" ++ rest)) ≡ some (rows, rest)
  unfolding rows_json
  read_rows-rows_json zero first rows rest h = absurd (omega arith)
  read_rows-rows_json (suc f) first [] rest h = refl
  read_rows-rows_json (suc f) true (row ∷ rows) rest h =
      rows_behind-row_json (read_rows f false) row rows (rows_json pr false rows)
        (codes "}" ++ rest) (read_rows-rows_json f false rows rest (omega arith))
  read_rows-rows_json (suc f) false (row ∷ rows) rest h =
      rows_behind-row_json (read_rows f false) row rows (rows_json pr false rows)
        (codes "}" ++ rest) (read_rows-rows_json f false rows rest (omega arith))

  length-row_json : (row : Text × ProviderStatus) → 0 < length (row_json pr row)
  unfolding row_json
  length-row_json row = omega arith

  length-rows_json :
      (first : Bool) (rows : List (Text × ProviderStatus))
      → length rows ≤ length (rows_json pr first rows)
  unfolding rows_json
  length-rows_json first [] = omega arith
  length-rows_json true (row ∷ rows) = omega (
    arith,
    length-row_json row,
    length-rows_json false rows,
    length-append (row_json pr row) (rows_json pr false rows),
  )
  length-rows_json false (row ∷ rows) = omega (
    arith,
    length-row_json row,
    length-rows_json false rows,
    length-append (row_json pr row) (rows_json pr false rows),
  )

  geo_behind-payload :
      (rows : List (Text × ProviderStatus)) (geo : Option Text)
      → geo_behind (
          some (
            rows,
            codes ","
                ++ (map_or (codes "\"geo_ip\":null") (λ g. codes "\"geo_ip\":" ++ g) geo
                    ++ codes "}"),
          ))
        ≡ some (rows, unwrap_or (codes "null") geo)
  geo_behind-payload rows none = refl
  geo_behind-payload rows (some geo) =
      ap (map_option (λ text. (rows, text))) (before_brace-append geo)

  abbrev behind : GuardStatus pr → Text
  behind status =
      codes ","
      ++ (map_or (codes "\"geo_ip\":null") (λ g. codes "\"geo_ip\":" ++ g) (geo_ip_status pr status)
          ++ codes "}")

  payload_parts :
      (status : GuardStatus pr)
      → payload pr status
        ≡ codes "{\"cloud_providers\":{"
          ++ (rows_json pr true (cloud_provider_status pr status) ++ (codes "}" ++ behind status))
  unfolding payload
  payload_parts status = simp append_assoc refl

  -- The document is read back by a reader of such documents: the provider rows, in their order, with
  -- their names, readiness, stamps and entries, and the text of the geo-ip component.
  pub read_document-payload :
      (status : GuardStatus pr)
      → read_document (payload pr status)
        ≡ some (cloud_provider_status pr status, unwrap_or (codes "null") (geo_ip_status pr status))
  unfolding read_document
  read_document-payload status =
      let rows = cloud_provider_status pr status in
      let closed = codes "}" ++ behind status in
      ap read_document (payload_parts status)
      ∙ ap geo_behind (
          read_rows-rows_json (suc (length (rows_json pr true rows ++ closed))) true rows
            (behind status)
            (omega
              (arith, length-rows_json true rows, length-append (rows_json pr true rows) closed)))
      ∙ geo_behind-payload rows (geo_ip_status pr status)
