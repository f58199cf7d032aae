-- ===== src/Status/Json.antt =====
-- A reader of JSON strings, and what it reads of the strings that `json_string` of `src/status.rs`
-- writes.
use tower_guard_rs.Base.{
  ℕ, zero, suc, ◌+◌, ◌-◌, ◌*◌, ◌/◌, ◌%◌, ◌<◌, Text, true, ◌&&◌, Option, none, some, [], ◌∷◌, ◌++◌,
  leb, ltb, ◌==◌, if◌then◌else◌, map_option, and_then, append_assoc, ◌≡◌, ==_iff, refl, ap, ◌∙◌,
  sym, arith, inl, inr, Bool-cases,
}
use tower_guard_rs.Status.{nibble, escape, escape_all, json_string}

abbrev hex_value : ℕ → Option ℕ
hex_value c =
    if leb b'0' c && leb c b'9'
    then some (c - b'0')
    else if leb b'a' c && leb c b'f'
    then some (c - b'a' + 10)
    else none

abbrev simple_escape : ℕ → Option ℕ
simple_escape c =
    if c == 0x22
    then some 0x22
    else if c == 0x5C
    then some 0x5C
    else if c == b'n'
    then some 0x0A
    else if c == b'r'
    then some 0x0D
    else if c == b't'
    then some 0x09
    else none

-- Between two characters, behind a backslash, or inside the four digits of an escape: how many come
-- after the next one, and the number so far.
pub data Reading : Type 0 where
  plain escaped : Reading
  digits : ℕ → ℕ → Reading

abbrev pub push : ℕ → Option (Text × Text) → Option (Text × Text)
push c read = map_option (λ (p : Text × Text). (c ∷ p.0, p.1)) read

-- The rest of a JSON string, to its closing quote, and what is behind that. A bare control character
-- and an unknown escape are not read.
read_from : Reading → Text → Option (Text × Text)
read_from _ [] = none
read_from plain (c ∷ s) =
    let escape_read = read_from escaped s in
    let plain_read = push c (read_from plain s) in
    if c == 0x22
    then some ([], s)
    else if c == 0x5C
    then escape_read
    else if ltb c 0x20
    then none
    else plain_read
read_from escaped (c ∷ s) =
    let digits_read = read_from (digits 3 0) s in
    let plain_read = read_from plain s in
    if c == b'u' then digits_read else and_then (simple_escape c) (λ x. push x plain_read)
read_from (digits zero v) (c ∷ s) =
    let plain_read = read_from plain s in and_then (hex_value c) (λ d. push (v * 16 + d) plain_read)
read_from (digits (suc k) v) (c ∷ s) =
    and_then (hex_value c) (λ d. read_from (digits k (v * 16 + d)) s)

unfoldable pub read_string : Text → Option (Text × Text)
unfolding read_from
read_string [] = none
read_string (c ∷ s) = if c == 0x22 then read_from plain s else none

hex_value-nibble : (d : ℕ) → d < 16 → hex_value (nibble d) ≡ some d
hex_value-nibble d h = ground arith

-- A control character that has no short escape.
read_from-control :
    (c : ℕ) (rest : Text)
    → c < 32
    → read_from plain (0x5C ∷ b'u' ∷ b'0' ∷ b'0' ∷ nibble (c / 16) ∷ nibble (c % 16) ∷ rest)
      ≡ push c (read_from plain rest)
unfolding read_from
read_from-control c rest h =
    rw (hex_value-nibble (c / 16) (omega arith), hex_value-nibble (c % 16) (omega arith), read_from)
      (ap (λ x. push x (read_from plain rest)) (omega arith))

-- A short escape is read as the character that it stands for.
is_escaped :
    (c k : ℕ) (rest : Text)
    → (c == k) ≡ true
    → push k (read_from plain rest) ≡ push c (read_from plain rest)
is_escaped c k rest h = ap (λ x. push x (read_from plain rest)) (sym ((==_iff c k).0 h))

read_from-escape :
    (c : ℕ) (rest : Text) → read_from plain (escape c ++ rest) ≡ push c (read_from plain rest)
unfolding escape read_from
read_from-escape c rest = elim (Bool-cases (c == 0x22)) [
  | inl quote ↦ rw quote (is_escaped c 0x22 rest quote)
  | inr a ↦ elim (Bool-cases (c == 0x5C)) [
    | inl backslash ↦ rw (a, backslash) (is_escaped c 0x5C rest backslash)
    | inr b ↦ elim (Bool-cases (c == 0x0A)) [
      | inl newline ↦ rw (a, b, newline) (is_escaped c 0x0A rest newline)
      | inr d ↦ elim (Bool-cases (c == 0x0D)) [
        | inl return ↦ rw (a, b, d, return) (is_escaped c 0x0D rest return)
        | inr e ↦ elim (Bool-cases (c == 0x09)) [
          | inl tab ↦ rw (a, b, d, e, tab) (is_escaped c 0x09 rest tab)
          | inr f ↦ elim (Bool-cases (ltb c 0x20)) [
            | inl control ↦ rw (a, b, d, e, f, control) (read_from-control c rest (ground arith))
            | inr printed ↦ rw (a, b, d, e, f, printed, read_from) (rw (a, b, printed) refl)
          ]
        ]
      ]
    ]
  ]
]

read_from-escape_all :
    (s rest : Text) → read_from plain (escape_all s ++ 0x22 ∷ rest) ≡ some (s, rest)
unfolding escape_all read_from
read_from-escape_all [] rest = refl
read_from-escape_all (c ∷ s) rest =
    ap (read_from plain) (append_assoc (escape c) (escape_all s) (0x22 ∷ rest))
    ∙ read_from-escape c _
    ∙ ap (push c) (read_from-escape_all s rest)

-- Every string that is written is read back, whatever stands behind it.
pub read_string-json_string : (s rest : Text) → read_string (json_string s ++ rest) ≡ some (s, rest)
unfolding json_string read_string
read_string-json_string s rest =
    ap (read_from plain) (append_assoc (escape_all s) (0x22 ∷ []) rest)
    ∙ read_from-escape_all s rest
