-- ===== src/Base.antt =====
-- The names that the other modules share: the libraries', passed on, and those of the children
-- on tests, lists and Go strings.
mod Tests
mod Lists
mod Strings
mod Trim
mod Int
mod Words
mod Decimal
mod Paths
pub use Tests.*
pub use Lists.*
pub use Int.*
pub use Decimal.*
pub use Trim.*
unfoldable pub use Paths.*
unfoldable pub use Words.*
unfoldable pub use Strings.*
pub use Prim.Native.Nat.{ℕ, zero, suc, ◌+◌, ◌-◌, ◌*◌, ◌/◌, ◌%◌, ◌≤◌, ◌<◌}
pub use mathlib.Core.Path.{◌≡◌, refl, sym, ap, ◌∙◌, subst}
pub use mathlib.Core.Logic.{◌≢◌, ◌↔◌, ◌⊎◌, inl, inr}
pub use mathlib.Core.Bool.{Bool, true, false, not, ◌&&◌, ◌||◌}
pub use mathlib.Core.Option.{Option, none, some}
pub use mathlib.Core.List.{List, [], ◌∷◌, ◌++◌, map}
pub use native.Mathlib.Omega.{arith}
