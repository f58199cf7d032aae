-- ===== src/Service/Query/Encode.antt =====
-- The inverse of the query reading of `src/service.rs`: a form encoder, and the round trip.
use tower_guard_rs.Base.{
  ℕ, ◌+◌, ◌-◌, ◌/◌, ◌%◌, ◌<◌, Text, Bool, true, false, ◌&&◌, ◌||◌, some, [], ◌∷◌, ◌++◌, All, leb,
  ltb, ◌==◌, if◌then◌else◌, ◌≡◌, refl, ap, sym, ◌∙◌, ==_iff, inl, inr, Bool-cases, arith,
  is_ascii_digit, from_utf8_lossy, from_utf8_lossy-valid, is_utf8,
}
use mathlib.Core.List.{map, map-append}
use tower_guard_rs.Service.Query.{
  hex_digit, hex_byte, decode_escape, decode_bytes, plus_to_space, decode_query_component,
}

-- One hexadecimal digit, in upper case.
abbrev pub hex : ℕ → ℕ
hex d = if ltb d 10 then b'0' + d else b'A' + (d - 10)

abbrev pub is_unreserved : ℕ → Bool
is_unreserved c =
    is_ascii_digit c
    || leb b'A' c && leb c b'Z'
    || leb b'a' c && leb c b'z'
    || c == b'-'
    || c == b'.'
    || c == b'_'
    || c == b'~'

-- A letter, a digit or one of `-._~` stands for itself, a space is a plus, and any other byte is
-- an escape of two digits.
unfoldable pub encode_byte : ℕ → Text
encode_byte c =
    if is_unreserved c
    then c ∷ []
    else if c == b' '
    then b'+' ∷ []
    else b'%' ∷ hex (c / 16) ∷ hex (c % 16) ∷ []

unfoldable pub encode : Text → Text
unfolding encode_byte
encode [] = []
encode (c ∷ s) = encode_byte c ++ encode s

abbrev pub AreBytes : Text → Type 0
AreBytes = All (λ c. c < 256)

hex_digit-hex : (d : ℕ) → d < 16 → hex_digit (hex d) ≡ some d
hex_digit-hex d h = ground arith

hex-ne-plus : (d : ℕ) → d < 16 → (hex d == b'+') ≡ false
hex-ne-plus d h = ground arith

hex_byte-hex : (c : ℕ) → c < 256 → hex_byte (hex (c / 16)) (hex (c % 16)) ≡ some c
unfolding hex_byte
hex_byte-hex c h =
    rw
      (
        hex-ne-plus (c / 16) (omega arith),
        hex_digit-hex (c / 16) (omega arith),
        hex_digit-hex (c % 16) (omega arith),
      )
      (ap some (omega arith))

-- A byte that is no percent sign is copied.
decode_copied : (c : ℕ) (s : Text) → (c == b'%') ≡ false → decode_bytes (c ∷ s) ≡ c ∷ decode_bytes s
unfolding decode_bytes
decode_copied c [] h = refl
decode_copied c (a ∷ []) h = refl
decode_copied c (a ∷ b ∷ s) h = rw (h, decode_bytes)

-- An escape of two digits is decoded.
decode_escaped :
    (c : ℕ) (rest : Text)
    → c < 256
    → decode_bytes (b'%' ∷ hex (c / 16) ∷ hex (c % 16) ∷ rest) ≡ c ∷ decode_bytes rest
unfolding decode_bytes decode_escape
decode_escaped c rest h = rw (hex_byte-hex c h, decode_escape) refl

unreserved_plain : (c : ℕ) → is_unreserved c ≡ true → ((c == b'+') ≡ false) × ((c == b'%') ≡ false)
unreserved_plain c h = ground arith

decode-encode_byte :
    (c : ℕ) (rest : Text)
    → c < 256
    → decode_bytes (map plus_to_space (encode_byte c) ++ rest) ≡ c ∷ decode_bytes rest
unfolding encode_byte
decode-encode_byte c rest h = elim (Bool-cases (is_unreserved c)) [
  | inl kept ↦
      let (no_plus, no_percent) = unreserved_plain c kept in
      rw (kept, no_plus) (decode_copied c rest no_percent)
  | inr other ↦ elim (Bool-cases (c == b' ')) [
    | inl space ↦
        rw (other, space)
          (decode_copied b' ' rest refl
            ∙ ap (λ b. b ∷ decode_bytes rest) (sym ((==_iff c b' ').0 space)))
    | inr escaped ↦
        rw (other, escaped, hex-ne-plus (c / 16) (omega arith), hex-ne-plus (c % 16) (omega arith))
          (decode_escaped c rest h)
  ]
]

decode_bytes-encode : (s : Text) → AreBytes s → decode_bytes (map plus_to_space (encode s)) ≡ s
unfolding encode
decode_bytes-encode [] h = unfold decode_bytes in refl
decode_bytes-encode (c ∷ s) (hc, hs) =
    rw (map-append, decode-encode_byte c _ hc, decode_bytes-encode s hs)

-- Decoding a query component undoes encoding it, for every text of bytes that is UTF-8.
pub decode_query_component-encode :
    (s : Text) → AreBytes s → is_utf8 s ≡ true → decode_query_component (encode s) ≡ s
unfolding decode_query_component
decode_query_component-encode s bytes valid =
    ap from_utf8_lossy (decode_bytes-encode s bytes) ∙ from_utf8_lossy-valid s valid
