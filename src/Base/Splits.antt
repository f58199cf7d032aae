-- ===== src/Base/Splits.antt =====
-- How `split` and `split_once` take apart texts that are put together with a separator.
use Prim.Native.Nat.{ℕ}
use mathlib.Core.Path.{◌≡◌, refl}
use mathlib.Core.Bool.{false}
use mathlib.Core.Option.{some}
use mathlib.Core.List.{[], ◌∷◌, ◌++◌}
use tower_guard_rs.Base.Tests.{◌==◌, ==_iff}
use tower_guard_rs.Base.Lists.{All}
use tower_guard_rs.Base.Texts.{Text, split, split_once}

-- A text without a byte.
abbrev pub Lacks : ℕ → Text → Type 0
Lacks sep = All (λ c. (c == sep) ≡ false)

pub split-Lacks : (sep : ℕ) (t : Text) → Lacks sep t → split sep t ≡ t ∷ []
unfolding split
split-Lacks sep [] h = refl
split-Lacks sep (c ∷ t) (hc, ht) = rw (hc, split-Lacks sep t ht) refl

pub split-append :
    (sep : ℕ) (t rest : Text) → Lacks sep t → split sep (t ++ sep ∷ rest) ≡ t ∷ split sep rest
unfolding split
split-append sep [] rest h = rw ((==_iff sep sep).1 refl) refl
split-append sep (c ∷ t) rest (hc, ht) = rw (hc, split-append sep t rest ht) refl

pub split_once-Lacks :
    (sep : ℕ) (t rest : Text) → Lacks sep t → split_once sep (t ++ sep ∷ rest) ≡ some (t, rest)
unfolding split_once
split_once-Lacks sep [] rest h = rw ((==_iff sep sep).1 refl) refl
split_once-Lacks sep (c ∷ t) rest (hc, ht) = rw (hc, split_once-Lacks sep t rest ht) refl
