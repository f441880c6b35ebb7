-- ===== src/Frax/Rate.antt =====
-- frax.rs: `exp2` by its 64 factors, the natural exponential over it, and the price of a share.
use crossfoot.Base.{
  ℕ, ◌+◌, ◌-◌, ◌*◌, ◌/◌, ◌%◌, ◌^◌, Bool, Option, none, some, List, [], ◌∷◌, leb, ◌==◌,
  if◌then◌else◌, u128_mod, checked_sub, checked_mul, try_u64,
}
use crossfoot.Base.Options.{◌>>=◌}
use crossfoot.Frax.{mul_u256_u128, shr_u256, to_u128}
use crossfoot.Wide.{mul_div_floor, mul_add_div_floor}

abbrev pub one_ether : ℕ
one_ether = 1_000_000_000_000_000_000

abbrev pub seconds_per_year : ℕ
seconds_per_year = 365 * 86_400

-- `LOG2_E` at the scale of 1e18.
abbrev pub log2_e : ℕ
log2_e = 1_442_695_040_888_963_407

-- The 64 factors of PRBMath's `exp2`.
abbrev pub exp2_factors : List ℕ
exp2_factors =
    26_087_635_650_665_564_425 ∷ 21_936_999_301_089_678_047 ∷ 20_116_317_054_877_281_742
    ∷ 19_263_451_207_323_153_962 ∷ 18_850_675_170_876_015_534 ∷ 18_647_615_946_650_685_159
    ∷ 18_546_908_069_882_975_960 ∷ 18_496_758_270_674_070_881 ∷ 18_471_734_244_850_835_106
    ∷ 18_459_234_930_309_000_272 ∷ 18_452_988_445_124_272_033 ∷ 18_449_865_995_240_371_898
    ∷ 18_448_304_968_436_414_829 ∷ 18_447_524_504_564_044_946 ∷ 18_447_134_285_009_651_015
    ∷ 18_446_939_178_327_825_412 ∷ 18_446_841_625_760_745_902 ∷ 18_446_792_849_670_663_277
    ∷ 18_446_768_461_673_986_097 ∷ 18_446_756_267_687_738_522 ∷ 18_446_750_170_697_637_486
    ∷ 18_446_747_122_203_342_655 ∷ 18_446_745_597_956_384_162 ∷ 18_446_744_835_832_952_145
    ∷ 18_446_744_454_771_247_945 ∷ 18_446_744_264_240_398_796 ∷ 18_446_744_168_974_974_960
    ∷ 18_446_744_121_342_263_227 ∷ 18_446_744_097_525_907_406 ∷ 18_446_744_085_617_729_507
    ∷ 18_446_744_079_663_640_561 ∷ 18_446_744_076_686_596_088 ∷ 18_446_744_075_198_073_852
    ∷ 18_446_744_074_453_812_734 ∷ 18_446_744_074_081_682_175 ∷ 18_446_744_073_895_616_895
    ∷ 18_446_744_073_802_584_256 ∷ 18_446_744_073_756_067_936 ∷ 18_446_744_073_732_809_776
    ∷ 18_446_744_073_721_180_696 ∷ 18_446_744_073_715_366_156 ∷ 18_446_744_073_712_458_886
    ∷ 18_446_744_073_711_005_251 ∷ 18_446_744_073_710_278_433 ∷ 18_446_744_073_709_915_025
    ∷ 18_446_744_073_709_733_320 ∷ 18_446_744_073_709_642_468 ∷ 18_446_744_073_709_597_042
    ∷ 18_446_744_073_709_574_329 ∷ 18_446_744_073_709_562_973 ∷ 18_446_744_073_709_557_294
    ∷ 18_446_744_073_709_554_455 ∷ 18_446_744_073_709_553_036 ∷ 18_446_744_073_709_552_326
    ∷ 18_446_744_073_709_551_971 ∷ 18_446_744_073_709_551_793 ∷ 18_446_744_073_709_551_705
    ∷ 18_446_744_073_709_551_660 ∷ 18_446_744_073_709_551_638 ∷ 18_446_744_073_709_551_627
    ∷ 18_446_744_073_709_551_622 ∷ 18_446_744_073_709_551_619 ∷ 18_446_744_073_709_551_617
    ∷ 18_446_744_073_709_551_617 ∷ []

-- `x & (1 << (63 - i)) != 0`
abbrev pub is_set : (x i : ℕ) → Bool
is_set x i = x / 2 ^ (63 - i) % 2 == 1

-- One factor of the product, and its shift.
unfoldable pub multiply : List ℕ → ℕ → Option (List ℕ)
unfolding mul_u256_u128 shr_u256
multiply result factor = do product ← mul_u256_u128 result factor; some (shr_u256 product 64)

-- The loop over the factors, from factor `i` on.
unfoldable pub exp2_loop : (x i : ℕ) → (factors result : List ℕ) → Option (List ℕ)
unfolding multiply
exp2_loop x i [] result = some result
exp2_loop x i (factor ∷ factors) result = do
  result' ← (if is_set x i then multiply result factor else some result)
  exp2_loop x (i + 1) factors result'

-- The loop, the scaling and the last shift, for an integer part below 192.
unfoldable pub exp2_scaled : (x integer : ℕ) → Option ℕ
unfolding exp2_loop mul_u256_u128 shr_u256
exp2_scaled x integer = do
  result ← exp2_loop x 0 exp2_factors (0 ∷ 0 ∷ 2 ^ 63 ∷ 0 ∷ [])
  scaled ← mul_u256_u128 result one_ether
  to_u128 (shr_u256 scaled (191 - integer))

-- `x` has 64 bits of fraction; `as u32` of the integer part drops its upper bits.
unfoldable pub exp2_fixed : ℕ → Option ℕ
exp2_fixed x =
    let integer = x / 2 ^ 64 % 2 ^ 32 in if leb 192 integer then none else exp2_scaled x integer

-- The input at the scale of 1e18 becomes one with 64 bits of fraction.
unfoldable pub exp2_ud : ℕ → Option ℕ
exp2_ud x =
    let shifted = x * 2 ^ 64 % u128_mod in
    if shifted / 2 ^ 64 == x then exp2_fixed (shifted / one_ether) else none

unfoldable pub exp_ud : ℕ → Option ℕ
exp_ud x = do scaled ← mul_div_floor x log2_e one_ether; exp2_ud scaled

-- `last_sync` and `now` are `u64`.
unfoldable pub price_per_share : (stored inc last_sync now : ℕ) → Option ℕ
unfolding checked_sub checked_mul
price_per_share stored inc last_sync now = do
  elapsed ← checked_sub now last_sync
  growth ← checked_mul inc elapsed
  factor ← exp_ud growth
  mul_div_floor stored factor one_ether

unfoldable pub total_assets : (pps total_supply : ℕ) → Option ℕ
total_assets pps total_supply = mul_div_floor pps total_supply one_ether

unfoldable pub convert_to_assets_1e18 : (total_assets total_supply : ℕ) → Option ℕ
convert_to_assets_1e18 total_assets total_supply =
    if total_supply == 0 then some one_ether else mul_div_floor one_ether total_assets total_supply

unfoldable pub apy_bps : ℕ → Option ℕ
unfolding checked_sub checked_mul try_u64
apy_bps inc = do
  growth ← checked_mul inc seconds_per_year
  yearly ← exp_ud growth
  excess ← checked_sub yearly one_ether
  bps ← mul_add_div_floor excess 10_000 (one_ether / 2) one_ether
  try_u64 bps
