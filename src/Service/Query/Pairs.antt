-- ===== src/Service/Query/Pairs.antt =====
-- The pairs that `scan_views` of `src/service.rs` reads of a query that is written from pairs.
use tower_guard_rs.Base.{
  ℕ, ◌<◌, ◌/◌, ◌%◌, Bool-cases, inl, inr, Text, true, false, not, some, List, [], ◌∷◌, ◌++◌, All,
  All-append, ◌==◌, is_empty, keep, is_utf8, split, split_once, Lacks, split-Lacks, split-append,
  split_once-Lacks, ◌≡◌, refl, ap, ◌∙◌, arith,
}
use mathlib.Core.List.{map}
use tower_guard_rs.Service.Query.{decode_pair, query_params}
use tower_guard_rs.Service.Query.Encode.{
  hex, is_unreserved, encode_byte, encode, AreBytes, decode_query_component-encode,
}

-- A name and a value that a form encodes: bytes that are UTF-8.
abbrev pub IsField : Text × Text → Type 0
IsField (name, value) =
    AreBytes name × (is_utf8 name ≡ true) × AreBytes value × (is_utf8 value ≡ true)

abbrev pub field : Text × Text → Text
field (name, value) = encode name ++ b'=' ∷ encode value

abbrev pub form : List (Text × Text) → Text
form [] = []
form (pair ∷ []) = field pair
form (pair ∷ next ∷ pairs) = field pair ++ b'&' ∷ form (next ∷ pairs)

-- A byte that takes no part in the layout of a form.
abbrev pub IsApart : ℕ → Type 0
IsApart c = ((c == b'&') ≡ false) × ((c == b'=') ≡ false)

unreserved-IsApart : (c : ℕ) → is_unreserved c ≡ true → IsApart c
unreserved-IsApart c h = ground arith

hex-IsApart : (d : ℕ) → d < 16 → IsApart (hex d)
hex-IsApart d h = ground arith

encode_byte-IsApart : (c : ℕ) → c < 256 → All IsApart (encode_byte c)
unfolding encode_byte
encode_byte-IsApart c h = elim (Bool-cases (is_unreserved c)) [
  | inl kept ↦ rw kept (unreserved-IsApart c kept, tt)
  | inr other ↦ elim (Bool-cases (c == b' ')) [
    | inl space ↦ rw (other, space) ((refl, refl), tt)
    | inr escaped ↦
        rw (other, escaped)
          (
            (refl, refl),
            (hex-IsApart (c / 16) (omega arith), (hex-IsApart (c % 16) (omega arith), tt)),
          )
  ]
]

encode-IsApart : (s : Text) → AreBytes s → All IsApart (encode s)
unfolding encode
encode-IsApart [] h = tt
encode-IsApart (c ∷ s) (hc, hs) =
    All-append IsApart (encode_byte c) (encode s) (encode_byte-IsApart c hc) (encode-IsApart s hs)

ampersand-Lacks : (t : Text) → All IsApart t → Lacks b'&' t
ampersand-Lacks [] h = tt
ampersand-Lacks (c ∷ t) (hc, ht) = (hc.0, ampersand-Lacks t ht)

equals-Lacks : (t : Text) → All IsApart t → Lacks b'=' t
equals-Lacks [] h = tt
equals-Lacks (c ∷ t) (hc, ht) = (hc.1, equals-Lacks t ht)

field-Lacks : (pair : Text × Text) → IsField pair → Lacks b'&' (field pair)
field-Lacks (name, value) (name_bytes, _, value_bytes, _) =
    All-append (λ c. (c == b'&') ≡ false) (encode name) (b'=' ∷ encode value)
      (ampersand-Lacks _ (encode-IsApart name name_bytes))
      (refl, ampersand-Lacks _ (encode-IsApart value value_bytes))

-- What `scan_views` does to one part of the query.
abbrev read_part : Text → Text × Text
read_part part = decode_pair part (split_once b'=' part)

read_part-field : (pair : Text × Text) → IsField pair → read_part (field pair) ≡ pair
read_part-field (name, value) (name_bytes, name_utf8, value_bytes, value_utf8) =
    rw
      (
        split_once-Lacks b'=' (encode name) (encode value)
            (equals-Lacks _ (encode-IsApart name name_bytes)),
        decode_query_component-encode name name_bytes name_utf8,
        decode_query_component-encode value value_bytes value_utf8,
      )
      refl

occupied : (t rest : Text) (c : ℕ) → is_empty (t ++ c ∷ rest) ≡ false
occupied [] rest c = refl
occupied (b ∷ t) rest c = refl

abbrev read_parts : List Text → List (Text × Text)
read_parts parts = map read_part (keep (λ part. not (is_empty part)) parts)

read_parts-field :
    (pair : Text × Text) (parts : List Text)
    → IsField pair
    → read_parts (field pair ∷ parts) ≡ pair ∷ read_parts parts
read_parts-field (name, value) parts h =
    rw (occupied (encode name) (encode value) b'=')
      (ap (λ p. p ∷ read_parts parts) (read_part-field (name, value) h))

-- The pairs that are read of a form are those that it was written from, in their order, the ones with
-- an empty name or value included: for names and values that are bytes and UTF-8.
pub query_params-form :
    (pairs : List (Text × Text)) → All IsField pairs → query_params (some (form pairs)) ≡ pairs
unfolding query_params
query_params-form [] h = unfold split in refl
query_params-form (pair ∷ []) (hp, _) =
    ap read_parts (split-Lacks b'&' (field pair) (field-Lacks pair hp))
    ∙ read_parts-field pair [] hp
query_params-form (pair ∷ next ∷ pairs) (hp, hs) =
    ap read_parts (split-append b'&' (field pair) (form (next ∷ pairs)) (field-Lacks pair hp))
    ∙ read_parts-field pair (split b'&' (form (next ∷ pairs))) hp
    ∙ ap (λ ps. pair ∷ ps) (query_params-form (next ∷ pairs) hs)
