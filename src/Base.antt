-- ===== src/Base.antt =====
-- The names that the modules of all examples share: the libraries', passed on, and those of the
-- children of this module.
mod Tests
mod Lists
mod Sums
mod Steps
mod Text
pub mod Dict
mod Channels
pub mod Int
pub use Tests.*
pub use Lists.*
unfoldable pub use Sums.*
unfoldable pub use Steps.*
pub use Text.*
pub use Channels.*
pub use Prim.Native.String.{String}
pub use Prim.Native.Nat.{ℕ, zero, suc, ◌+◌, ◌-◌, ◌*◌, ◌/◌, ◌%◌, ◌^◌, ◌≤◌, ◌<◌}
pub use mathlib.Core.Path.{◌≡◌, refl, sym, ap, ◌∙◌}
pub use mathlib.Core.Logic.{◌≢◌, ◌↔◌, ◌⊎◌, inl, inr}
pub use mathlib.Core.Bool.{Bool, true, false, not, ◌&&◌, ◌||◌}
pub use mathlib.Core.Option.{Option, none, some}
pub use mathlib.Core.List.{List, [], ◌∷◌, ◌++◌, map}
pub use native.Mathlib.Omega.{arith}
unfoldable pub use native.Mathlib.Decide.{dec_lt, ℕ_discrete}
