-- ===== src/Service/Query.antt =====
-- The query string as `scan_views` of `src/service.rs` reads it: `decode_query_component` and the
-- pairs of names and values.
pub mod Encode
pub mod Pairs
pub mod Loop
use tower_guard_rs.Base.{
  ℕ, ◌+◌, ◌-◌, ◌*◌, Text, codes, Bool, not, ◌&&◌, Option, none, some, List, [], ◌∷◌, leb, ◌==◌,
  if◌then◌else◌, map_option, and_then, is_empty, keep, split, split_once, from_utf8_lossy,
  unwrap_or, ◌≡◌, refl,
}
use mathlib.Core.List.{map}

abbrev pub hex_digit : ℕ → Option ℕ
hex_digit c =
    if leb b'0' c && leb c b'9'
    then some (c - b'0')
    else if leb b'a' c && leb c b'f'
    then some (c - b'a' + 10)
    else if leb b'A' c && leb c b'F'
    then some (c - b'A' + 10)
    else none

-- `u8::from_str_radix(.., 16)` of two bytes: a sign `+` is taken, and bytes that are not UTF-8 are no
-- digits.
unfoldable pub hex_byte : ℕ → ℕ → Option ℕ
hex_byte a b =
    if a == b'+'
    then hex_digit b
    else and_then (hex_digit a) (λ h. map_option (λ l. h * 16 + l) (hex_digit b))

-- The loop of `decode_query_component`: `index + 2 < len` is two more bytes behind this one.
decode_escape : Option ℕ → Text → Text → Text
decode_escape none copied decoded = copied
decode_escape (some byte) copied decoded = byte ∷ decoded

unfoldable pub decode_bytes : Text → Text
unfolding decode_escape hex_byte
decode_bytes [] = []
decode_bytes (c ∷ []) = c ∷ []
decode_bytes (c ∷ a ∷ []) = c ∷ a ∷ []
decode_bytes (c ∷ a ∷ b ∷ s) =
    let copied = c ∷ decode_bytes (a ∷ b ∷ s) in
    let decoded = decode_bytes s in
    if c == b'%' then decode_escape (hex_byte a b) copied decoded else copied

abbrev pub plus_to_space : ℕ → ℕ
plus_to_space c = if c == b'+' then b' ' else c

unfoldable pub decode_query_component : Text → Text
unfolding decode_bytes from_utf8_lossy
decode_query_component component = from_utf8_lossy (decode_bytes (map plus_to_space component))

abbrev pub decode_pair : Text → Option (Text × Text) → Text × Text
decode_pair pair none = (decode_query_component pair, [])
decode_pair pair (some (name, value)) = (decode_query_component name, decode_query_component value)

-- The pairs of `scan_views`, in order, the empty ones left out.
unfoldable pub query_params : Option Text → List (Text × Text)
unfolding decode_query_component split split_once
query_params query =
    map (λ pair. decode_pair pair (split_once b'=' pair))
      (keep (λ pair. not (is_empty pair)) (split b'&' (unwrap_or [] query)))

query_tests :
    (query_params (some (codes "a=1%2B2&&b+c=%zz&d"))
      ≡ (codes "a", codes "1+2") ∷ (codes "b c", codes "%zz") ∷ (codes "d", []) ∷ [])
    × (decode_query_component (codes "%4") ≡ codes "%4")
    × (decode_query_component (codes "%41") ≡ codes "A")
unfolding query_params
query_tests = (refl, refl, refl)
