-- ===== src/Common.antt =====
-- Names that every module shares: the libraries', passed on, and those of the children for Boolean
-- tests, lists over native numbers, u64 words and bit masks.
mod Tests
mod Lists
mod Words
mod Results
pub mod Masks
pub use Tests.*
pub use Lists.*
pub use Results.*
pub use Words.{
  u64_mod, checked_add, checked_mul, checked_add-inv, checked_mul-inv, sub64, not64, IsPower,
  is_power_of_two-IsPower, align_down_lem, AlignedUp, align_up-AlignedUp, IsPower-pos, bit_and-high,
  pow-add, exponents, bit_and_halves, power_below_exponent, power_below,
}
unfoldable pub use Words.{is_power_of_two, align_down, align_up}
pub use Prim.Native.Nat.{
  ℕ, zero, suc, ◌+◌, ◌-◌, ◌*◌, ◌/◌, ◌%◌, ◌^◌, ◌≤◌, ◌<◌, min, max, bit_and, bit_or,
}
pub use mathlib.Core.Path.{◌≡◌, refl, sym, ap, subst, ◌∙◌}
pub use mathlib.Core.Logic.{◌≢◌, ◌↔◌, ◌⊎◌, inl, inr}
pub use mathlib.Core.Bool.{Bool, true, false, not, ◌&&◌, ◌||◌}
pub use mathlib.Core.Option.{Option, none, some}
pub use mathlib.Core.List.{List, [], ◌∷◌, ◌++◌, map}
pub use native.Mathlib.Omega.{arith}
