-- ===== src/Common.antt =====
-- Names that the other modules share: library names passed on, Boolean tests, equality by
-- instances, Python's `dict` and the text operations that the backend uses.
mod Tests
mod Eq
mod Lists
mod Numbers
pub mod Dict
pub mod Text
pub mod Regex
pub use Tests.*
pub use Eq.{Equality, ◌==◌, ==-refl, ==-comm, ==→≡, nat_eq, pair_eq, list_eq, bool_eq, option_eq}
pub use Lists.*
pub use Numbers.*
pub use Prim.Native.Nat.{ℕ, zero, suc, ◌+◌, ◌-◌, ◌*◌, ◌/◌, ◌%◌, ◌^◌, ◌≤◌, ◌<◌}
pub use mathlib.Core.Path.{◌≡◌, refl, sym, ap, subst, ◌∙◌}
pub use mathlib.Core.Logic.{◌≢◌, ◌↔◌, ◌⊎◌, inl, inr}
pub use mathlib.Core.Bool.{Bool, true, false, not, ◌&&◌, ◌||◌}
pub use mathlib.Core.Option.{Option, none, some}
pub use mathlib.Core.List.{List, [], ◌∷◌, ◌++◌, map}
pub use native.Mathlib.Omega.{arith}
