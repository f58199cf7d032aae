-- ===== src/Base.antt =====
-- The names that the other modules share: the libraries', passed on, and those of the children.
mod Tests
mod Lists
mod Texts
mod Flows
mod Utf8
mod Splits
mod Progress
mod Steady
pub use Tests.*
pub use Splits.*
pub use Progress.*
pub use Steady.*
pub use Lists.*
unfoldable pub use Texts.*
unfoldable pub use Flows.*
unfoldable pub use Utf8.{from_utf8_lossy, is_utf8, from_utf8}
pub use Utf8.{from_utf8_lossy-valid}
unfoldable pub use Texts.Decimal.{read_number}
pub use Texts.Decimal.{EndsNumber, read_number-decimal}
pub use Prim.Native.Nat.{ℕ, zero, suc, ◌+◌, ◌-◌, ◌*◌, ◌/◌, ◌%◌, ◌≤◌, ◌<◌}
pub use mathlib.Core.Path.{◌≡◌, refl, sym, ap, subst, ◌∙◌}
pub use mathlib.Core.Logic.{◌≢◌, ◌↔◌, ◌⊎◌, inl, inr}
pub use mathlib.Core.Bool.{Bool, true, false, not, ◌&&◌, ◌||◌}
pub use mathlib.Core.Option.{Option, none, some}
pub use mathlib.Core.List.{List, [], ◌∷◌, ◌++◌, append_assoc, append-nil}
pub use native.Mathlib.Omega.{arith}
