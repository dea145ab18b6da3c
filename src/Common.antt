-- ===== src/Common.antt =====
-- Names that the other modules share: library names passed on, Boolean tests, lists over the
-- native numbers, signed integers and dictionaries keyed by text.
mod Tests
mod Lists
mod Int
mod Dict
mod Sort
mod Reorder
mod Text
mod Scan
mod Decimal
pub use Tests.*
pub use Lists.*
pub use Int.*
unfoldable pub use Int.{wrap64, ◌*64◌}
pub use Dict.*
pub use Sort.*
pub use Reorder.*
pub use Text.*
pub use Scan.*
pub use Decimal.*
unfoldable pub use Decimal.{itoa}
unfoldable pub use Scan.{strip, contains, cut, split, join, has}
unfoldable pub use Text.{atoi}
unfoldable pub use Sort.{str_ltb, insert_by, sort_by}
pub use Prim.Native.Nat.{ℕ, zero, suc, ◌+◌, ◌-◌, ◌*◌, ◌/◌, ◌%◌, ◌^◌, ◌≤◌, ◌<◌}
pub use Prim.Native.String.{String}
pub use mathlib.Core.Path.{◌≡◌, refl, sym, ap, ◌∙◌, subst}
pub use mathlib.Core.Logic.{◌≢◌, ◌↔◌, ◌⊎◌, inl, inr}
pub use mathlib.Core.Bool.{Bool, true, false, ◌&&◌, ◌||◌, not}
pub use mathlib.Core.Option.{Option, none, some}
pub use mathlib.Core.List.{List, [], ◌∷◌, ◌++◌, map}
pub use native.Mathlib.Omega.{arith}
pub use text.Mathlib.Text.{◌==◌ as str_eq}
pub use text.Mathlib.TextEquality.{eq_iff}
pub use text.Mathlib.TextPositions.{eq_refl}
