-- ===== src/Base.antt =====
-- Names that the other modules share: the libraries', passed on, and those of the children: tests
-- on numbers, lists measured by the native numbers, signed integers, fixed-width words, and the
-- results of Go code.
mod Tests
mod Lists
pub mod Decimal
pub mod Weights
pub mod Maybe
pub mod Rotation
pub mod Permutations
mod Words
mod Outcomes
pub use Tests.*
pub use Lists.*
pub use Words.*
pub use Outcomes.*
pub use Prim.Native.Nat.{ℕ, zero, suc, ◌+◌, ◌-◌, ◌*◌, ◌/◌, ◌%◌, ◌^◌, ◌≤◌, ◌<◌, min, max}
pub use mathlib.Core.Path.{◌≡◌, refl, sym, ap, ◌∙◌}
pub use mathlib.Core.Logic.{◌≢◌, ◌↔◌, ◌⊎◌, inl, inr}
pub use mathlib.Core.Bool.{Bool, true, false, not, ◌&&◌, ◌||◌}
pub use mathlib.Core.Option.{Option, none, some}
pub use mathlib.Core.List.{List, [], ◌∷◌, ◌++◌, map}
pub use native.Mathlib.Omega.{arith}
