-- ===== src/Service/Query/Loop.antt =====
-- The loop of `decode_query_component` of `src/service.rs` as it is written, by an index into the bytes.
use tower_guard_rs.Base.{
  ℕ, zero, suc, ◌+◌, ◌<◌, Text, Bool, true, false, ◌&&◌, Option, none, some, [], ◌∷◌, ◌++◌, length,
  length-append, ltb, ◌==◌, if◌then◌else◌, and_then, map_or, append_assoc, append-nil, ◌≡◌, refl,
  sym, ap, ◌∙◌, arith, Bool-cases, Option-cases, inl, inr,
}
use tower_guard_rs.Service.Query.{hex_byte, decode_bytes}

-- `bytes[index]`; `none` is a panic.
abbrev pub get : Text → ℕ → Option ℕ
get [] index = none
get (c ∷ s) zero = some c
get (c ∷ s) (suc index) = get s index

-- The condition of the loop's `if`, with the byte that it gives.
unfoldable pub escape_at : Text → ℕ → Option ℕ
unfolding hex_byte
escape_at bytes index =
    if map_or false (λ c. c == b'%') (get bytes index) && ltb (index + 2) (length bytes)
    then and_then (get bytes (index + 1))
        (λ a. and_then (get bytes (index + 2)) (λ b. hex_byte a b))
    else none

-- The body of the loop: whether the index is within the bytes, the escape there and the byte there.
abbrev decode_round : Bool → Option ℕ → Option ℕ → (ℕ → Text → Option Text) → ℕ → Text → Option Text
decode_round false escape byte next index out = some out
decode_round true (some decoded) byte next index out = next (index + 3) (out ++ decoded ∷ [])
decode_round true none (some c) next index out = next (index + 1) (out ++ c ∷ [])
decode_round true none none next index out = none

-- The loop, its rounds bounded by fuel; `none` is also a loop that has run out of it.
unfoldable pub decode_loop : ℕ → Text → ℕ → Text → Option Text
unfolding escape_at
decode_loop zero bytes index out = none
decode_loop (suc rounds) bytes index out =
    decode_round (ltb index (length bytes)) (escape_at bytes index) (get bytes index)
      (decode_loop rounds bytes) index out

get-append :
    (front s : Text) (k index : ℕ) → index ≡ length front + k → get (front ++ s) index ≡ get s k
get-append [] s k index e = ap (get s) (omega arith)
get-append (c ∷ front) s k zero e = absurd (omega arith)
get-append (c ∷ front) s k (suc index) e = get-append front s k index (omega arith)

-- What the condition gives where the rest of the bytes is the second text.
abbrev escape_of : Text → Option ℕ
escape_of (c ∷ a ∷ b ∷ s) = if c == b'%' then hex_byte a b else none
escape_of _ = none

and_false : (b : Bool) → (b && false) ≡ false
and_false true = refl
and_false false = refl

-- With fewer than three bytes left there is no escape.
escape_at_short : (front s : Text) → length s < 3 → escape_at (front ++ s) (length front) ≡ none
unfolding escape_at
escape_at_short front s h =
    let beyond : ltb (length front + 2) (length (front ++ s)) ≡ false =
      ground (arith, length-append front s) in
    rw (beyond, and_false _) refl

escape_at_long :
    (front s : Text) (c a b : ℕ)
    → escape_at (front ++ c ∷ a ∷ b ∷ s) (length front) ≡ (if c == b'%' then hex_byte a b else none)
unfolding escape_at
escape_at_long front s c a b =
    let within : ltb (length front + 2) (length (front ++ c ∷ a ∷ b ∷ s)) ≡ true =
      ground (arith, length-append front (c ∷ a ∷ b ∷ s)) in
    let first = get-append front (c ∷ a ∷ b ∷ s) 0 (length front) (omega arith) in
    let second = get-append front (c ∷ a ∷ b ∷ s) 1 (length front + 1) (omega arith) in
    let third = get-append front (c ∷ a ∷ b ∷ s) 2 (length front + 2) (omega arith) in
    elim (Bool-cases (c == b'%')) [
      | inl percent ↦ rw (within, first, second, third, percent) refl
      | inr other ↦ rw (first, other) refl
    ]

-- One round that copies a byte.
copy_round :
    (rounds : ℕ) (front s out rest : Text) (c : ℕ)
    → escape_at (front ++ c ∷ s) (length front) ≡ none
    → decode_loop rounds ((front ++ c ∷ []) ++ s) (length (front ++ c ∷ [])) (out ++ c ∷ [])
      ≡ some ((out ++ c ∷ []) ++ rest)
    → decode_loop (suc rounds) (front ++ c ∷ s) (length front) out ≡ some (out ++ c ∷ rest)
unfolding decode_loop
copy_round rounds front s out rest c plain next =
    let within : ltb (length front) (length (front ++ c ∷ s)) ≡ true =
      ground (arith, length-append front (c ∷ s)) in
    let at = append_assoc front (c ∷ []) s in
    let index : length (front ++ c ∷ []) ≡ length front + 1 =
      omega (arith, length-append front (c ∷ [])) in
    let byte = get-append front (c ∷ s) 0 (length front) (omega arith) in
    (λ i.
      decode_round (within i) (plain i) (byte i) (decode_loop rounds (front ++ c ∷ s))
        (length front) out)
    ∙ (sym (λ i. decode_loop rounds (at i) (index i) (out ++ c ∷ []))
        ∙ next
        ∙ ap some (append_assoc out (c ∷ []) rest))

-- One round that decodes an escape.
escape_round :
    (rounds : ℕ) (front s out rest : Text) (c a b byte : ℕ)
    → escape_at (front ++ c ∷ a ∷ b ∷ s) (length front) ≡ some byte
    → decode_loop rounds
        ((front ++ c ∷ a ∷ b ∷ []) ++ s)
        (length (front ++ c ∷ a ∷ b ∷ []))
        (out ++ byte ∷ [])
      ≡ some ((out ++ byte ∷ []) ++ rest)
    → decode_loop (suc rounds) (front ++ c ∷ a ∷ b ∷ s) (length front) out
      ≡ some (out ++ byte ∷ rest)
unfolding decode_loop
escape_round rounds front s out rest c a b byte escaped next =
    let within : ltb (length front) (length (front ++ c ∷ a ∷ b ∷ s)) ≡ true =
      ground (arith, length-append front (c ∷ a ∷ b ∷ s)) in
    let at = append_assoc front (c ∷ a ∷ b ∷ []) s in
    let index : length (front ++ c ∷ a ∷ b ∷ []) ≡ length front + 3 =
      omega (arith, length-append front (c ∷ a ∷ b ∷ [])) in
    (λ i.
      decode_round (within i) (escaped i) (get (front ++ c ∷ a ∷ b ∷ s) (length front))
        (decode_loop rounds (front ++ c ∷ a ∷ b ∷ s)) (length front) out)
    ∙ (sym (λ i. decode_loop rounds (at i) (index i) (out ++ byte ∷ []))
        ∙ next
        ∙ ap some (append_assoc out (byte ∷ []) rest))

decode_loop-append :
    (rounds : ℕ) (front s out : Text)
    → length s < rounds
    → decode_loop rounds (front ++ s) (length front) out ≡ some (out ++ decode_bytes s)
unfolding decode_bytes decode_loop
decode_loop-append zero front s out h = absurd (omega arith)
decode_loop-append (suc rounds) front [] out h =
    let done : ltb (length front) (length (front ++ [])) ≡ false =
      ground (arith, length-append front []) in
    (λ i.
      decode_round (done i) (escape_at (front ++ []) (length front))
        (get (front ++ []) (length front)) (decode_loop rounds (front ++ [])) (length front) out)
    ∙ ap some (sym (append-nil out))
decode_loop-append (suc rounds) front (c ∷ []) out h =
    copy_round rounds front [] out [] c (escape_at_short front (c ∷ []) (omega arith))
      (decode_loop-append rounds (front ++ c ∷ []) [] (out ++ c ∷ []) (omega arith))
decode_loop-append (suc rounds) front (c ∷ a ∷ []) out h =
    copy_round rounds front (a ∷ []) out (a ∷ []) c
      (escape_at_short front (c ∷ a ∷ []) (omega arith))
      (decode_loop-append rounds (front ++ c ∷ []) (a ∷ []) (out ++ c ∷ []) (omega arith))
decode_loop-append (suc rounds) front (c ∷ a ∷ b ∷ s) out h =
    let copied =
      decode_loop-append rounds (front ++ c ∷ []) (a ∷ b ∷ s) (out ++ c ∷ []) (omega arith) in
    elim (Bool-cases (c == b'%')) [
      | inr other ↦
          let plain : escape_at (front ++ c ∷ a ∷ b ∷ s) (length front) ≡ none =
            escape_at_long front s c a b ∙ rw other refl in
          copy_round rounds front (a ∷ b ∷ s) out (decode_bytes (a ∷ b ∷ s)) c plain copied
          ∙ rw other refl
      | inl percent ↦ elim (Option-cases (hex_byte a b)) [
        | inl broken ↦
            let plain : escape_at (front ++ c ∷ a ∷ b ∷ s) (length front) ≡ none =
              escape_at_long front s c a b ∙ rw (percent, broken) refl in
            copy_round rounds front (a ∷ b ∷ s) out (decode_bytes (a ∷ b ∷ s)) c plain copied
            ∙ rw (percent, broken) refl
        | inr (byte, hex) ↦
            let escaped : escape_at (front ++ c ∷ a ∷ b ∷ s) (length front) ≡ some byte =
              escape_at_long front s c a b ∙ rw (percent, hex) refl in
            escape_round rounds front s out (decode_bytes s) c a b byte escaped (
              decode_loop-append rounds (front ++ c ∷ a ∷ b ∷ []) s (out ++ byte ∷ [])
                (omega arith))
            ∙ rw (percent, hex) refl
      ]
    ]

-- The loop ends, after no more rounds than there are bytes and one, without an index out of bounds, and
-- gives what the recursion over the bytes gives.
pub decode_loop-decode_bytes :
    (bytes : Text) → decode_loop (suc (length bytes)) bytes 0 [] ≡ some (decode_bytes bytes)
decode_loop-decode_bytes bytes = decode_loop-append (suc (length bytes)) [] bytes [] (omega arith)
