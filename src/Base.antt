-- ===== src/Base.antt =====
-- The names that every other module takes: the library's, passed on, and those of the children.
mod Tests
mod Lists
mod Errors
mod Words
pub mod Enumerate
pub mod Sorting
pub mod Bits
pub mod Powers
pub mod Wrap
pub mod Int
pub mod Double
pub mod Signed
pub mod Text
pub use Tests.*
pub use Lists.*
pub use Errors.*
pub use Words.*
pub use Prim.Native.Nat.{
  ℕ, zero, suc, ◌+◌, ◌-◌, ◌*◌, ◌/◌, ◌%◌, ◌^◌, ◌≤◌, ◌<◌, bit_and, bit_or, bit_xor,
}
pub use Prim.Native.String.{String}
pub use mathlib.Core.Path.{◌≡◌, refl, sym, ap, ap₂, ◌∙◌}
pub use mathlib.Core.Logic.{◌≢◌, ◌↔◌, ◌⊎◌, inl, inr}
pub use mathlib.Core.Bool.{Bool, true, false, not, ◌&&◌, ◌||◌}
pub use mathlib.Core.Option.{Option, none, some}
pub use mathlib.Core.List.{List, [], ◌∷◌, ◌++◌, map, append-nil, append_assoc}
pub use native.Mathlib.Omega.{arith}
