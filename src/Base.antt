-- ===== src/Base.antt =====
-- Names shared by the whole development: the libraries', passed on, and those of the children
-- (tests, lists, results, machine words). Laws of the bit operations stand in Base/Bits.
mod Tests
mod Lists
mod Throw
mod Words
pub mod Bits
pub mod Tables
pub mod Fnv
unfoldable pub use Tests.*
pub use Lists.*
pub use Throw.*
pub use Words.*
pub use Prim.Native.Nat.{
  ℕ, zero, suc, ◌+◌, ◌-◌, ◌*◌, ◌/◌, ◌%◌, ◌^◌, ◌≤◌, ◌<◌, min, max, bit_and, bit_or, bit_xor,
}
pub use mathlib.Core.Path.{◌≡◌, refl, sym, ap, ap₂, ◌∙◌}
pub use mathlib.Core.Logic.{◌≢◌, ◌↔◌, ◌⊎◌, inl, inr}
pub use mathlib.Core.Bool.{Bool, true, false, not, ◌&&◌, ◌||◌}
pub use mathlib.Core.Option.{Option, none, some}
pub use mathlib.Core.List.{List, [], ◌∷◌, ◌++◌, map, append-nil, append_assoc}
pub use native.Mathlib.Omega.{arith}
