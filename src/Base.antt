-- ===== src/Base.antt =====
-- The names that the models of all packages share: the libraries' own, passed on, and those of the
-- children (tests, lists, signed integers, Go maps with string keys, time, float64).
mod Tests
mod Lists
pub mod Int
pub mod Map
pub mod Counts
pub mod Time
pub mod Float
pub mod Result
pub mod Runes
pub use Tests.*
unfoldable pub use Tests.{◌=s=◌}
pub use Lists.*
pub use Prim.Native.Nat.{ℕ, zero, suc, ◌+◌, ◌-◌, ◌*◌, ◌/◌, ◌%◌, ◌^◌, ◌≤◌, ◌<◌}
pub use Prim.Native.String.{String}
pub use mathlib.Core.Path.{◌≡◌, refl, sym, ap, subst, ◌∙◌}
pub use mathlib.Core.Logic.{◌≢◌, ◌↔◌, ◌⊎◌, inl, inr}
pub use mathlib.Core.Bool.{Bool, true, false, not, ◌&&◌, ◌||◌}
pub use mathlib.Core.Option.{Option, none, some}
pub use mathlib.Core.List.{List, [], ◌∷◌, ◌++◌, map}
pub use native.Mathlib.Omega.{arith}
