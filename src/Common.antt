-- ===== src/Common.antt =====
-- What the modules of the development share: the names of the libraries, Boolean tests on the
-- native numbers, lists measured by them, and the values and errors of the Go code.
mod Tests
mod Lists
mod Go
pub mod Sink
pub mod Ensures
pub mod Maps
pub mod Decimal
pub mod Text
pub use Tests.*
pub use Lists.*
pub use Go.*
pub use Prim.Native.Nat.{ℕ, zero, suc, ◌+◌, ◌-◌, ◌*◌, ◌/◌, ◌%◌, ◌^◌, ◌≤◌, ◌<◌}
pub use mathlib.Core.Path.{◌≡◌, refl, sym, ap, ◌∙◌, subst}
pub use mathlib.Core.Logic.{◌≢◌, ◌↔◌, ◌⊎◌, inl, inr}
pub use mathlib.Core.Bool.{Bool, true, false, not, ◌&&◌, ◌||◌}
pub use mathlib.Core.Option.{Option, none, some}
pub use mathlib.Core.List.{List, [], ◌∷◌, ◌++◌, map, append_assoc, append-nil}
pub use native.Mathlib.Omega.{arith}
