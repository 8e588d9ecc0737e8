-- ===== src/Base.antt =====
-- Names that all modules share: the libraries' and those of the children, passed on.
mod Tests
mod Lists
mod Words
mod Results
mod Partition
mod Family
mod Totals
mod Bytes
mod Bits
pub use Tests.*
pub use Lists.*
pub use Words.*
pub use Results.*
pub use Partition.*
pub use Family.*
pub use Totals.*
unfoldable pub use Bytes.*
pub use Bits.{bit_xor_top}
pub use Prim.Native.Nat.{
  ℕ, zero, suc, ◌+◌, ◌-◌, ◌*◌, ◌/◌, ◌%◌, ◌^◌, ◌≤◌, ◌<◌, min, max, bit_and, bit_or, bit_xor,
}
pub use mathlib.Core.Path.{◌≡◌, refl, sym, ap, ap₂, subst, ◌∙◌, fun_ext}
pub use mathlib.Core.Logic.{◌≢◌, ◌↔◌, ◌⊎◌, inl, inr, ite, dite, if_pos, if_neg}
pub use mathlib.Core.Bool.{Bool, true, false, not, ◌&&◌, ◌||◌, cond}
pub use mathlib.Core.Option.{Option, none, some}
pub use mathlib.Core.List.{List, [], ◌∷◌, ◌++◌, map}
pub use native.Mathlib.Omega.{arith}
unfoldable pub use native.Mathlib.Decide.{dec_lt, dec_le, ℕ_discrete}
