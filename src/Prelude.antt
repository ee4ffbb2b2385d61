-- ===== src/Prelude.antt =====
-- The names that the other modules share: the library's, passed on, and those of the children:
-- Boolean tests, lists over the native numbers, signed integers, and texts as Go's `strings`
-- package treats them.
mod Tests
mod Lists
mod Int
mod Strings
mod Trim
pub use Tests.*
pub use Lists.*
pub use Int.*
pub use Trim.*
unfoldable pub use Strings.*
pub use Prim.Native.Nat.{ℕ, zero, suc, ◌+◌, ◌-◌, ◌*◌, ◌/◌, ◌%◌, ◌^◌, ◌≤◌, ◌<◌, min}
pub use Prim.Native.String.{String}
pub use mathlib.Core.Path.{◌≡◌, refl, sym, ap, ap₂, subst, ◌∙◌}
pub use mathlib.Core.Logic.{◌≢◌, ◌↔◌, ◌⊎◌, inl, inr}
pub use mathlib.Core.Bool.{Bool, true, false, not, ◌&&◌, ◌||◌}
pub use mathlib.Core.Option.{Option, none, some}
pub use mathlib.Core.List.{List, [], ◌∷◌, ◌++◌, map, reverse}
pub use native.Mathlib.Omega.{arith}
