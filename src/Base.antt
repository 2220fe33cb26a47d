-- ===== src/Base.antt =====
-- Names shared by every module: the libraries', passed on, and those of the children: Boolean
-- tests and the conditional, lists measured by native numbers, byte strings, and predicates.
mod Tests
mod Lists
mod Maps
mod Strings
mod Utf8
mod Powers
mod Int
pub use Tests.*
unfoldable pub use Lists.*
pub use Int.*
pub use Powers.*
unfoldable pub use Maps.*
unfoldable pub use Strings.*
unfoldable pub use Utf8.*
pub use Prim.Native.Nat.{ℕ, zero, suc, ◌+◌, ◌-◌, ◌*◌, ◌/◌, ◌%◌, ◌^◌, ◌≤◌, ◌<◌}
pub use mathlib.Core.Path.{◌≡◌, refl, sym, ap, subst, ◌∙◌}
pub use mathlib.Core.Logic.{◌≢◌, ◌↔◌, ◌⊎◌, inl, inr}
pub use mathlib.Core.Bool.{Bool, true, false, not, ◌&&◌, ◌||◌}
pub use mathlib.Core.Option.{Option, none, some}
pub use mathlib.Core.List.{List, [], ◌∷◌, ◌++◌, map}
pub use native.Mathlib.Omega.{arith}
unfoldable pub use native.Mathlib.Decide.{dec_lt, dec_le, ℕ_discrete}
