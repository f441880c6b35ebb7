-- ===== src/Base.antt =====
-- The names that the other modules share: the libraries', passed on, and those of the children.
mod Tests
mod Lists
mod Results
mod Word
mod Int
mod Text
pub mod Bits
pub mod Options
pub use Tests.*
pub use Lists.*
pub use Results.*
unfoldable pub use Word.{
  add64, sub64, saturating_sub, add128, mul128, sub128, checked_add, checked_sub, checked_mul,
  try_u64, div_ceil,
}
pub use Word.{
  u64_mod, u128_mod, u64_max, u128_max, add64-exact, sub64-exact, add128-exact, mul128-exact,
  sub128-exact, mul-lt-u128, div_ceil_least,
}
pub use Int.{
  ℤ, pos, negsuc, difference, neg, pos_part, neg_part, abs, ◌≤ℤ◌, ◌<ℤ◌, ltb_ℤ, half_i128, half_i64,
  wrap64-pos, difference-add, wrap128-pos, wrap128-neg, neg-times, quot-neg, abs-neg,
}
unfoldable pub use Int.{◌+ℤ◌, ◌-ℤ◌, ◌*ℤ◌, quot, wrap128, wrap64}
pub use Text.{same_text, same_text_iff, some_text, codes, same_codes}
unfoldable pub use Text.{lower_code, lower_text, same_ignoring_case}
pub use Prim.Native.Nat.{ℕ, zero, suc, ◌+◌, ◌-◌, ◌*◌, ◌/◌, ◌%◌, ◌^◌, ◌≤◌, ◌<◌, min, max}
pub use mathlib.Core.Path.{◌≡◌, refl, sym, ap, ◌∙◌}
pub use mathlib.Core.Logic.{◌≢◌, ◌↔◌, ◌⊎◌, inl, inr}
pub use mathlib.Core.Bool.{Bool, true, false, not, ◌&&◌, ◌||◌}
pub use mathlib.Core.Option.{Option, none, some}
pub use mathlib.Core.List.{List, [], ◌∷◌, ◌++◌, map}
pub use native.Mathlib.Omega.{arith}
