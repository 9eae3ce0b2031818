-- ===== src/Base.antt =====
-- The names that the other modules share: the libraries', and those of the children.
mod Logic
mod Fallible
mod Bits
pub mod Net
pub mod Decimal
pub mod Strings
pub mod Utf8
pub mod Addr
pub mod HexText
pub mod Loop
pub mod Lossy
pub mod Ascii
pub mod Paths
mod Lists
mod Slices
mod Words
pub use Logic.*
pub use Fallible.*
unfoldable pub use Bits.*
pub use Lists.*
unfoldable pub use Slices.*
pub use Words.*
pub use Prim.Native.Nat.{ℕ, zero, suc, ◌+◌, ◌-◌, ◌*◌, ◌/◌, ◌%◌, ◌^◌, ◌≤◌, ◌<◌, min, max}
pub use Prim.Native.Nat.{bit_and, bit_or}
pub use mathlib.Core.Path.{◌≡◌, refl, sym, ap, ap₂, subst, ◌∙◌, ◌≡⟨◌⟩◌, ◌∎}
pub use mathlib.Core.Logic.{◌≢◌, ◌↔◌, ◌⊎◌, inl, inr}
pub use mathlib.Core.Bool.{Bool, true, false, not, ◌&&◌, ◌||◌}
pub use mathlib.Core.Option.{Option, none, some}
pub use mathlib.Core.List.{List, [], ◌∷◌, ◌++◌, map, append-nil, append_assoc}
pub use native.Mathlib.Omega.{arith}
