-- ===== src/Base.antt =====
-- The names that the other modules share: the libraries', passed on, and those of the children:
-- Boolean tests, lists indexed by native numbers, and the integers of JavaScript's `bigint`.
mod Tests
mod Lists
pub mod Int
pub mod Text
pub use Tests.*
pub use Lists.*
pub use Prim.Native.Nat.{ℕ, zero, suc, ◌+◌, ◌-◌, ◌*◌, ◌/◌, ◌%◌, ◌^◌, ◌≤◌, ◌<◌, min, max}
pub use mathlib.Core.Path.{◌≡◌, refl, sym, ap, ◌∙◌}
pub use mathlib.Core.Logic.{◌≢◌, ◌↔◌, ◌⊎◌, inl, inr}
pub use mathlib.Core.Bool.{Bool, true, false, not, ◌&&◌, ◌||◌}
pub use mathlib.Core.Option.{Option, none, some}
pub use mathlib.Core.List.{List, [], ◌∷◌, ◌++◌, map}
pub use native.Mathlib.Omega.{arith}
