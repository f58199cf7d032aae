-- ===== src/Status/Row.antt =====
-- A reader of the provider rows that `GuardStatus::payload` of `src/status.rs` writes.
use tower_guard_rs.Base.{
  ℕ, Text, codes, Bool, true, false, Option, none, some, [], ◌∷◌, ◌++◌, ◌==◌, if◌then◌else◌, map_or,
  map_option, and_then, append_assoc, decimal, read_number, EndsNumber, read_number-decimal, ◌≡◌,
  refl, arith, is_ascii_digit, Bool-cases, inl, inr,
}
use tower_guard_rs.Status.{ProviderStatus, Providers, json_string, row_json}
use tower_guard_rs.Status.Json.{read_string, read_string-json_string}

-- The text behind a literal.
abbrev pub strip : Text → Text → Option Text
strip [] s = some s
strip (a ∷ p) [] = none
strip (a ∷ p) (b ∷ s) = let rest = strip p s in if a == b then rest else none

strip-append : (p s : Text) → strip p (p ++ s) ≡ some s
strip-append [] s = refl
strip-append (a ∷ p) s = let same : (a == a) ≡ true = ground arith in rw same (strip-append p s)

abbrev pub read_bool : Text → Option (Bool × Text)
read_bool s = elim (strip (codes "true") s) [
  | some rest ↦ some (true, rest)
  | none ↦ map_option (λ rest. (false, rest)) (strip (codes "false") s)
]

-- A number or `null`.
abbrev stamp_of : Option Text → Option (ℕ × Text) → Option (Option ℕ × Text)
stamp_of (some rest) number = some (none, rest)
stamp_of none number = map_option (λ (p : ℕ × Text). (some p.0, p.1)) number

abbrev pub read_stamp : Text → Option (Option ℕ × Text)
read_stamp s = stamp_of (strip (codes "null") s) (read_number s)

unfoldable pub read_row : Text → Option ((Text × ProviderStatus) × Text)
unfolding read_string read_number
read_row s0 = and_then (read_string s0) (λ (name : Text × Text).
    and_then (strip (codes ":{\"ready\":") name.1) (λ s2.
      and_then (read_bool s2) (λ (ready : Bool × Text).
        and_then (strip (codes ",\"last_refreshed\":") ready.1) (λ s4.
          and_then (read_stamp s4) (λ (stamp : Option ℕ × Text).
            and_then (strip (codes ",\"entries\":") stamp.1) (λ s6.
              and_then (read_number s6) (λ (entries : ℕ × Text).
                map_option
                  (λ rest. (
                    (
                      name.0,
                      record { ready = ready.0; last_refreshed = stamp.0; entries = entries.0 },
                    ),
                    rest,
                  ))
                  (strip (codes "}") entries.1))))))))

read_bool-lem :
    (b : Bool) (s : Text)
    → read_bool ((if b then codes "true" else codes "false") ++ s) ≡ some (b, s)
read_bool-lem true s = refl
read_bool-lem false s = refl

abbrev stamp_text : Option ℕ → Text
stamp_text stamp = map_or (codes "null") decimal stamp

number_not_null : (s : Text) {x : ℕ × Text} → read_number s ≡ some x → strip (codes "null") s ≡ none
unfolding read_number
number_not_null [] h = refl
number_not_null (c ∷ s) h = elim (Bool-cases (is_ascii_digit c)) [
  | inl digit ↦ let other : (b'n' == c) ≡ false = ground arith in rw other refl
  | inr letter ↦ let nothing : read_number (c ∷ s) ≡ none = rw letter refl in cc
]

read_stamp-lem :
    (stamp : Option ℕ) (s : Text)
    → EndsNumber s
    → read_stamp (stamp_text stamp ++ s) ≡ some (stamp, s)
read_stamp-lem none s h = refl
read_stamp-lem (some n) s h =
    let number = read_number-decimal n s h in
    λ i. stamp_of (number_not_null (decimal n ++ s) number i) (number i)

module _ (pr : Providers) where
  reassociated :
      (provider : Text) (row : ProviderStatus) (rest : Text)
      → row_json pr (provider, row) ++ rest
        ≡ json_string provider
          ++ (codes ":{\"ready\":"
              ++ ((if row.ready then codes "true" else codes "false")
                  ++ (codes ",\"last_refreshed\":"
                      ++ (stamp_text row.last_refreshed
                          ++ (codes ",\"entries\":"
                              ++ (decimal row.entries ++ (codes "}" ++ rest)))))))
  unfolding row_json
  reassociated provider row rest = simp append_assoc refl

  pub read_row-row_json :
      (provider : Text) (row : ProviderStatus) (rest : Text)
      → read_row (row_json pr (provider, row) ++ rest) ≡ some ((provider, row), rest)
  unfolding read_row
  read_row-row_json provider row rest =
      rw
        (
          reassociated provider row rest,
          read_string-json_string provider _,
          read_bool-lem row.ready _,
          read_stamp-lem row.last_refreshed _ refl,
          read_number-decimal row.entries _ refl,
        )
        refl
