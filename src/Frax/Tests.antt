-- ===== src/Frax/Tests.antt =====
-- The pinned observations of the source's own tests, and the theorems on them.
use crossfoot.Base.{
  ◌≡◌, ◌≤◌, ◌-◌, ◌*◌, ◌^◌, refl, arith, some, [], ◌∷◌, checked_sub, checked_mul, try_u64, add128,
  mul128,
}
use crossfoot.Wide.{mul_div_floor, mul_full, div_256, div_loop, mul_add_div_floor}
use crossfoot.Frax.{
  update, mul_row, carry_loop, mul_rows, mul_u256_u128, shift_bits, shift_limbs, shr_u256,
}
use crossfoot.Frax.Rate.{
  one_ether, multiply, exp2_loop, exp2_scaled, exp2_fixed, exp2_ud, exp_ud, price_per_share,
  apy_bps,
}
use crossfoot.Frax.Limbs.{value}
use crossfoot.Frax.Product.{Holds, mul_u256_u128-exact}
use crossfoot.Frax.Exp.{exact_loop, exact_power, exact_exp2, exp2_fixed-exact}
use crossfoot.Frax.Price.{growth, price_per_share-growth}

exp_one : exp_ud 1_000_000_000_000_000_000 ≡ some 2_718_281_828_459_045_234
unfolding update mul_row carry_loop mul_rows mul_u256_u128 shift_bits shift_limbs shr_u256 multiply
    exp2_loop exp2_scaled exp2_fixed exp2_ud exp_ud mul_div_floor mul_full div_256 div_loop add128
    mul128
exp_one = refl

-- The price at the anchor 1787856407 and 445116 seconds later.
price_observed :
    price_per_share 1_207_771_001_807_249_130 1_486_668_756 1_787_856_407 1_788_301_523
    ≡ some 1_208_570_496_750_105_242
unfolding update mul_row carry_loop mul_rows mul_u256_u128 shift_bits shift_limbs shr_u256 multiply
    exp2_loop exp2_scaled exp2_fixed exp2_ud exp_ud mul_div_floor mul_full div_256 div_loop add128
    mul128 price_per_share checked_sub checked_mul
price_observed = refl

-- 480 basis points a year.
apy_observed : apy_bps 1_486_668_756 ≡ some 480
unfolding update mul_row carry_loop mul_rows mul_u256_u128 shift_bits shift_limbs shr_u256 multiply
    exp2_loop exp2_scaled exp2_fixed exp2_ud exp_ud mul_div_floor mul_full div_256 div_loop add128
    mul128 apy_bps checked_sub checked_mul try_u64 mul_add_div_floor
apy_observed = refl

-- The integer part loses its upper bits: an exponent of 2 ^ 32 is taken for one of 0.
integer_part_wraps : exp2_fixed (2 ^ 96) ≡ some one_ether
unfolding update mul_row carry_loop mul_rows mul_u256_u128 shift_bits shift_limbs shr_u256 multiply
    exp2_loop exp2_scaled exp2_fixed add128 mul128
integer_part_wraps = refl

mul_u256_u128-exact_example :
    Holds 4 (5 * (2 ^ 128 - 1)) (mul_u256_u128 (5 ∷ 0 ∷ 0 ∷ 0 ∷ []) (2 ^ 128 - 1))
unfolding value
mul_u256_u128-exact_example =
    (mul_u256_u128-exact (5 ∷ 0 ∷ 0 ∷ 0 ∷ []) (2 ^ 128 - 1) refl
        (omega arith, (omega arith, (omega arith, (omega arith, tt)))) (omega arith)).0
      (omega arith)

exp2_fixed-exact_example : exp2_fixed (3 * 2 ^ 63) ≡ some (exact_exp2 (3 * 2 ^ 63))
unfolding exact_loop exact_power exact_exp2
exp2_fixed-exact_example =
    (exp2_fixed-exact (3 * 2 ^ 63) (omega arith)).0 (omega arith) (omega arith)

price_per_share-growth_example : 1_207_771_001_807_249_130 ≤ 1_208_570_496_750_105_242
unfolding growth exact_loop exact_power exact_exp2
price_per_share-growth_example =
    ((price_per_share-growth 1_207_771_001_807_249_130 1_486_668_756 1_787_856_407 1_788_301_523
        (omega arith)).1
      (omega arith) (omega arith) (omega arith)).1
