-- ===== src/Base/Utf8.antt =====
-- UTF-8 as Rust's standard library reads it: `str::from_utf8` accepts a text or not, and
-- `String::from_utf8_lossy` puts U+FFFD in place of each maximal part that is not UTF-8.
use Prim.Native.Nat.{ℕ, zero, suc}
use mathlib.Core.Path.{◌≡◌, refl, ap, sym, ◌∙◌}
use mathlib.Core.Logic.{inl, inr}
use mathlib.Core.Bool.{Bool, true, false, ◌&&◌, true≢false}
use mathlib.Core.Option.{Option, none, some}
use mathlib.Core.List.{[], ◌∷◌, ◌++◌, append_assoc, append-nil}
use tower_guard_rs.Base.Tests.{leb, ltb, if◌then◌else◌, Bool-cases}
use tower_guard_rs.Base.Texts.{Text}

abbrev in_range : ℕ → ℕ → ℕ → Bool
in_range lo hi c = leb lo c && leb c hi

-- What a byte at the start of a character announces.
pub data Lead : Type 0 where
  ascii : Lead
  -- The number of continuation bytes less one, and the range of the first.
  multi : ℕ → ℕ → ℕ → Lead
  invalid : Lead

lead : ℕ → Lead
lead c =
    if ltb c 0x80
    then ascii
    else if in_range 0xC2 0xDF c
    then multi 0 0x80 0xBF
    else if in_range 0xE0 0xE0 c
    then multi 1 0xA0 0xBF
    else if in_range 0xED 0xED c
    then multi 1 0x80 0x9F
    else if in_range 0xE1 0xEF c
    then multi 1 0x80 0xBF
    else if in_range 0xF0 0xF0 c
    then multi 2 0x90 0xBF
    else if in_range 0xF1 0xF3 c
    then multi 2 0x80 0xBF
    else if in_range 0xF4 0xF4 c
    then multi 2 0x80 0x8F
    else invalid

-- Between two characters, or inside one: how many more bytes after the next one, the range of the
-- next one, and the bytes read so far.
pub data Pending : Type 0 where
  idle : Pending
  need : ℕ → ℕ → ℕ → Text → Pending

-- One byte: the text that is complete, and what is pending behind it. `none` where a part was not
-- UTF-8.
pub record Round : Type 0 where
  pub clean : Bool
  pub out : Text
  pub pending : Pending

abbrev replacement : Text
replacement = 0xEF ∷ 0xBF ∷ 0xBD ∷ []

start : Lead → ℕ → Bool → Text → Round
start ascii c clean out = record { clean = clean; out = out ++ c ∷ []; pending = idle }
start (multi k lo hi) c clean out = record {
  clean = clean;
  out = out;
  pending = need k lo hi (c ∷ []);
}
start invalid c clean out = record { clean = false; out = out ++ replacement; pending = idle }

follow : ℕ → Text → ℕ → Round
follow zero read c = record { clean = true; out = read ++ c ∷ []; pending = idle }
follow (suc k) read c = record {
  clean = true;
  out = [];
  pending = need k 0x80 0xBF (read ++ c ∷ []);
}

step : Pending → ℕ → Round
unfolding start follow lead
step idle c = start (lead c) c true []
step (need k lo hi read) c =
    if in_range lo hi c then follow k read c else start (lead c) c false replacement

lossy_from : Pending → Text → Text
lossy_from idle [] = []
lossy_from (need k lo hi read) [] = replacement
lossy_from p (c ∷ s) = (step p c).out ++ lossy_from (step p c).pending s

valid_from : Pending → Text → Bool
valid_from idle [] = true
valid_from (need k lo hi read) [] = false
valid_from p (c ∷ s) = (step p c).clean && valid_from (step p c).pending s

unfoldable pub from_utf8_lossy : Text → Text
unfolding lossy_from step
from_utf8_lossy s = lossy_from idle s

unfoldable pub is_utf8 : Text → Bool
unfolding valid_from step
is_utf8 s = valid_from idle s

-- `str::from_utf8(..).ok()`.
unfoldable pub from_utf8 : Text → Option Text
unfolding is_utf8
from_utf8 s = if is_utf8 s then some s else none

-- The bytes read so far.
abbrev carried : Pending → Text
carried idle = []
carried (need k lo hi read) = read

start-carried :
    (l : Lead) (c : ℕ) (clean : Bool) (out : Text)
    → (start l c clean out).clean ≡ true
    → (start l c clean out).out ++ carried (start l c clean out).pending ≡ out ++ c ∷ []
unfolding start
start-carried ascii c clean out h = append-nil (out ++ c ∷ [])
start-carried (multi k lo hi) c clean out h = refl
start-carried invalid c clean out h = cc

-- A refused start is not clean.
start-unclean : (l : Lead) (c : ℕ) (out : Text) → (start l c false out).clean ≡ false
unfolding start
start-unclean ascii c out = refl
start-unclean (multi k lo hi) c out = refl
start-unclean invalid c out = refl

follow-carried :
    (k : ℕ) (read : Text) (c : ℕ)
    → (follow k read c).out ++ carried (follow k read c).pending ≡ read ++ c ∷ []
unfolding follow
follow-carried zero read c = append-nil (read ++ c ∷ [])
follow-carried (suc k) read c = refl

step-carried :
    (p : Pending) (c : ℕ)
    → (step p c).clean ≡ true
    → (step p c).out ++ carried (step p c).pending ≡ carried p ++ c ∷ []
unfolding step
step-carried idle c h = start-carried (lead c) c true [] h
step-carried (need k lo hi read) c h = elim (Bool-cases (in_range lo hi c)) [
  | inl inside ↦ rw inside (follow-carried k read c)
  | inr outside ↦ absurd (
      true≢false (
        sym h
        ∙ ap (λ b. (if b then follow k read c else start (lead c) c false replacement).clean)
            outside
        ∙ start-unclean (lead c) c replacement))
]

both : (a b : Bool) → (a && b) ≡ true → (a ≡ true) × (b ≡ true)
both true b h = (refl, h)
both false b h = cc

-- In front of the bytes read so far, a valid rest is copied.
lossy_from-valid :
    (p : Pending) (s : Text) → valid_from p s ≡ true → lossy_from p s ≡ carried p ++ s
unfolding lossy_from valid_from
lossy_from-valid idle [] h = refl
lossy_from-valid (need k lo hi read) [] h = cc
lossy_from-valid p (c ∷ s) h =
    let (clean, valid) = both (step p c).clean _ h in
    ap (λ t. (step p c).out ++ t) (lossy_from-valid (step p c).pending s valid)
    ∙ sym (append_assoc (step p c).out (carried (step p c).pending) s)
    ∙ ap (λ t. t ++ s) (step-carried p c clean)
    ∙ append_assoc (carried p) (c ∷ []) s

-- A text that is UTF-8 is kept.
pub from_utf8_lossy-valid : (s : Text) → is_utf8 s ≡ true → from_utf8_lossy s ≡ s
unfolding from_utf8_lossy is_utf8
from_utf8_lossy-valid s h = lossy_from-valid idle s h
