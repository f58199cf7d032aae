-- ===== src/Base/Texts/Decimal.antt =====
-- A reader of unsigned decimal numbers, and what it reads of the digits that `decimal` writes.
use Prim.Native.Nat.{ℕ, zero, suc, ◌+◌, ◌-◌, ◌*◌, ◌/◌, ◌%◌, ◌<◌}
use mathlib.Core.Path.{◌≡◌, refl, ap, ◌∙◌}
use mathlib.Core.Logic.{inl, inr}
use mathlib.Core.Bool.{true, false}
use mathlib.Core.Option.{Option, none, some}
use mathlib.Core.List.{[], ◌∷◌, ◌++◌}
use native.Mathlib.Omega.{arith}
use tower_guard_rs.Base.Tests.{ltb, if◌then◌else◌, Bool-cases}
use tower_guard_rs.Base.Texts.{Text, is_ascii_digit, decimal, decimal_fuel}

-- The digits at the front of a text, behind those that gave the number so far.
digits_from : ℕ → Text → ℕ × Text
digits_from n [] = (n, [])
digits_from n (c ∷ s) =
    let longer = digits_from (n * 10 + (c - b'0')) s in
    if is_ascii_digit c then longer else (n, c ∷ s)

unfoldable pub read_number : Text → Option (ℕ × Text)
unfolding digits_from
read_number [] = none
read_number (c ∷ s) = if is_ascii_digit c then some (digits_from 0 (c ∷ s)) else none

-- The text behind a number: it does not go on with a digit.
abbrev pub EndsNumber : Text → Type 0
EndsNumber [] = Unit {0}
EndsNumber (c ∷ s) = is_ascii_digit c ≡ false

digits_from-end : (n : ℕ) (s : Text) → EndsNumber s → digits_from n s ≡ (n, s)
unfolding digits_from
digits_from-end n [] h = refl
digits_from-end n (c ∷ s) h = rw h refl

digit_step :
    (m d n : ℕ) (s : Text)
    → d < 10
    → m * 10 + d ≡ n
    → digits_from m ((b'0' + d) ∷ s) ≡ digits_from n s
unfolding digits_from
digit_step m d n s h e =
    let digit : is_ascii_digit (b'0' + d) ≡ true = ground arith in
    rw digit (ap (λ k. digits_from k s) (omega arith))

digits_from-decimal :
    (f n : ℕ) (out rest : Text)
    → n < f
    → digits_from 0 (decimal_fuel f n out ++ rest) ≡ digits_from n (out ++ rest)
unfolding decimal_fuel
digits_from-decimal zero n out rest h = absurd (omega arith)
digits_from-decimal (suc f) n out rest h = elim (Bool-cases (ltb n 10)) [
  | inl small ↦ rw small (digit_step 0 n n (out ++ rest) (ground arith) (omega arith))
  | inr large ↦ rw large (
      digits_from-decimal f (n / 10) ((b'0' + n % 10) ∷ out) rest (ground arith)
      ∙ digit_step (n / 10) (n % 10) n (out ++ rest) (omega arith) (omega arith))
]

-- The first character of a number is a digit.
decimal_fuel_starts :
    (f n : ℕ) (out rest : Text)
    → n < f
    → read_number (decimal_fuel f n out ++ rest)
      ≡ some (digits_from 0 (decimal_fuel f n out ++ rest))
unfolding decimal_fuel read_number
decimal_fuel_starts zero n out rest h = absurd (omega arith)
decimal_fuel_starts (suc f) n out rest h = elim (Bool-cases (ltb n 10)) [
  | inl small ↦ rw small (ground arith)
  | inr large ↦
      rw large (decimal_fuel_starts f (n / 10) ((b'0' + n % 10) ∷ out) rest (ground arith))
]

pub read_number-decimal :
    (n : ℕ) (rest : Text) → EndsNumber rest → read_number (decimal n ++ rest) ≡ some (n, rest)
unfolding decimal
read_number-decimal n rest h =
    decimal_fuel_starts (suc n) n [] rest (omega arith)
    ∙ ap some (digits_from-decimal (suc n) n [] rest (omega arith) ∙ digits_from-end n rest h)
