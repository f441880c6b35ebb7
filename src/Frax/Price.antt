-- ===== src/Frax/Price.antt =====
-- frax.rs, `exp2_ud`, `exp_ud` and `price_per_share`: when they return, and what.
use native.Mathlib.Nat.{mul-le-mul_left, div-lt_iff_lt-mul, le-div_iff_mul-le, pow-le-pow_right}
use crossfoot.Base.{
  ℕ, ◌+◌, ◌-◌, ◌*◌, ◌/◌, ◌%◌, ◌^◌, ◌≤◌, ◌<◌, ◌≡◌, ◌∙◌, arith, true, none, some, List, [], ◌∷◌,
  Bool-cases, inl, inr, u128_mod, checked_sub, checked_mul,
}
use crossfoot.Wide.{mul_div_floor}
use crossfoot.Wide.Floor.{mul_div_floor-floor}
use crossfoot.Frax.Rate.{one_ether, log2_e, exp2_factors, is_set, exp2_ud, exp_ud, price_per_share}
use crossfoot.Frax.Shift.{pow_pos}
use crossfoot.Frax.Exp.{
  exact_loop, exact_power, exact_exp2, exp2_loop_start, exp2_fixed-exact, fits, loop_fits,
}

-- With an integer part of at most 18 the power is far below a `u128`.
exact_exp2-lt : (y : ℕ) → y < 19 * 2 ^ 64 → exact_exp2 y < u128_mod
unfolding exact_exp2 exact_power
exact_exp2-lt y h =
    let (out, e, number, below) = exp2_loop_start y in
    let shift = 191 - y / 2 ^ 64 in
    let large : 2 ^ 173 ≤ 2 ^ shift =
      pow-le-pow_right {n = 2} (omega arith) {i = 173} {j = shift} (omega arith) in
    (div-lt_iff_lt-mul (pow_pos shift)).1 (omega (arith, below, large))

-- `exp2_ud` returns for exactly the inputs below 2 ^ 64, and then the exact power of the input with
-- 64 bits of fraction.
pub exp2_ud-exact :
    (x : ℕ)
    → x < u128_mod
    → (x < 2 ^ 64 → exp2_ud x ≡ some (exact_exp2 (x * 2 ^ 64 / one_ether)))
      × (2 ^ 64 ≤ x → exp2_ud x ≡ none)
unfolding exp2_ud
exp2_ud-exact x h =
    let y = x * 2 ^ 64 / one_ether in
    (
      λ p.
          let (exact, _, _) = exp2_fixed-exact y (omega arith) in
          let same : x * 2 ^ 64 % u128_mod ≡ x * 2 ^ 64 = omega arith in
          let back : x * 2 ^ 64 / 2 ^ 64 ≡ x = omega arith in
          let small : y < 19 * 2 ^ 64 = omega arith in
          let value = exact (omega arith) (exact_exp2-lt y small) in
          rw same (ground (arith, value, back)),
      λ p. ground arith,
    )

-- No bit of the fraction lowers the result.
exact_loop-le :
    (limit x i : ℕ) (factors : List ℕ) (r m : ℕ)
    → fits limit factors m ≡ true
    → r ≤ exact_loop x i factors r
unfolding exact_loop fits
exact_loop-le limit x i [] r m ok = omega arith
exact_loop-le limit x i (factor ∷ factors) r m ok =
    let large : 2 ^ 64 ≤ factor = ground arith in
    let rest : fits limit factors (m * factor / 2 ^ 64) ≡ true = ground arith in
    let grows : r * 2 ^ 64 ≤ r * factor = mul-le-mul_left r large in
    elim (Bool-cases (is_set x i)) [
      | inl set ↦ rw set (
          omega (
            arith,
            exact_loop-le limit x (i + 1) factors (r * factor / 2 ^ 64) (m * factor / 2 ^ 64) rest,
            grows,
          ))
      | inr clear ↦ rw clear (exact_loop-le limit x (i + 1) factors r (m * factor / 2 ^ 64) rest)
    ]

-- The growth is at least one.
exact_exp2-one : (y : ℕ) → one_ether ≤ exact_exp2 y
unfolding exact_exp2 exact_power
exact_exp2-one y =
    let shift = 191 - y / 2 ^ 64 in
    let start = exact_loop-le (2 ^ 192) y 0 exp2_factors (2 ^ 191) (2 ^ 191) loop_fits in
    let small : 2 ^ shift ≤ 2 ^ 191 =
      pow-le-pow_right {n = 2} (omega arith) {i = shift} {j = 191} (omega arith) in
    (le-div_iff_mul-le (pow_pos shift)).1 (omega (arith, start, small))

-- The growth of `inc * elapsed`, at the scale of 1e18.
unfoldable pub growth : ℕ → ℕ
growth x = exact_exp2 (x * log2_e / one_ether * 2 ^ 64 / one_ether)

exp_ud-growth :
    (x : ℕ) → x < u128_mod → x * log2_e / one_ether < 2 ^ 64 → exp_ud x ≡ some (growth x)
unfolding exp_ud growth
exp_ud-growth x h small =
    let scaled : mul_div_floor x log2_e one_ether ≡ some (x * log2_e / one_ether) =
      mul_div_floor-floor x log2_e one_ether h (omega arith) (omega arith) ∙ ground arith in
    rw scaled ((exp2_ud-exact (x * log2_e / one_ether) (omega arith)).0 small)

growth-lt : (x : ℕ) → x * log2_e / one_ether < 2 ^ 64 → growth x < u128_mod
unfolding growth
growth-lt x small = exact_exp2-lt (x * log2_e / one_ether * 2 ^ 64 / one_ether) (omega arith)

growth-one : (x : ℕ) → one_ether ≤ growth x
unfolding growth
growth-one x = exact_exp2-one (x * log2_e / one_ether * 2 ^ 64 / one_ether)

-- The price of a share from an anchor that is a `u128`: a time before the anchor has none; else it is the anchor times the growth,
-- rounded down, where the exponent is below 2 ^ 64 and the price is a `u128`, and never less than
-- the anchor.
pub price_per_share-growth :
    (stored inc last_sync now : ℕ)
    → stored < u128_mod
    → (now < last_sync → price_per_share stored inc last_sync now ≡ none)
      × (last_sync ≤ now
          → inc * (now - last_sync) * log2_e / one_ether < 2 ^ 64
          → stored * growth (inc * (now - last_sync)) / one_ether < u128_mod
          → (price_per_share stored inc last_sync now
              ≡ some (stored * growth (inc * (now - last_sync)) / one_ether))
            × (stored ≤ stored * growth (inc * (now - last_sync)) / one_ether))
unfolding price_per_share checked_sub checked_mul
price_per_share-growth stored inc last_sync now h =
    let x = inc * (now - last_sync) in
    (
      λ p. ground arith,
      λ p small fits.
          let word : x < u128_mod = omega arith in
          let factor = exp_ud-growth x word small in
          let grown : stored * one_ether ≤ stored * growth x =
            mul-le-mul_left stored (growth-one x) in
          let bounded : growth x < u128_mod = growth-lt x small in
          let price : mul_div_floor stored (growth x) one_ether
              ≡ some (stored * growth x / one_ether) =
            mul_div_floor-floor stored (growth x) one_ether h bounded (omega arith)
            ∙ ground (arith, fits) in
          (ground (arith, word, factor, price), omega (arith, grown)),
    )
