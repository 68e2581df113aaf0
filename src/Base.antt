-- ===== src/Base.antt =====
-- What the components share: names of the libraries passed on, tests on numbers, arrays as lists,
-- C strings, machine words, and the result of code that can fault.
mod Tests
mod Lists
mod Faults
mod Text
mod Decimal
mod Outcomes
mod Sockets
pub use Tests.*
pub use Lists.*
unfoldable pub use Faults.*
unfoldable pub use Text.*
pub use Outcomes.*
pub use Sockets.*
unfoldable pub use Decimal.*
pub use Prim.Native.Nat.{ℕ, zero, suc, ◌+◌, ◌-◌, ◌*◌, ◌/◌, ◌%◌, ◌^◌, ◌≤◌, ◌<◌}
pub use mathlib.Core.Path.{◌≡◌, refl, sym, ap, ap₂, ◌∙◌}
pub use mathlib.Core.Logic.{◌≢◌, ◌↔◌, ◌⊎◌, inl, inr}
pub use mathlib.Core.Bool.{Bool, true, false, not, ◌&&◌, ◌||◌}
pub use mathlib.Core.Option.{Option, none, some}
pub use mathlib.Core.List.{List, [], ◌∷◌, ◌++◌, map, append-nil, append_assoc}
pub use native.Mathlib.Omega.{arith}
