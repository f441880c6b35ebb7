-- ===== src/Mtbill/Deviation.antt =====
-- mtbill.rs, `deviation`: on positive answers, the exact percentage.
use native.Mathlib.Nat.{div-le_self}
use crossfoot.Base.{
  ℕ, ◌-◌, ◌*◌, ◌/◌, ◌^◌, ◌<◌, max, min, ◌≡◌, refl, arith, some, pos, ◌-ℤ◌, ◌*ℤ◌, quot, wrap128,
  wrap128-pos, wrap128-neg, neg, neg-times, quot-neg, abs-neg, ==-false, le-lt-cases, inl, inr,
}
use crossfoot.Mtbill.{deviation, one}

abbrev percent_unit : ℕ
percent_unit = 10_000_000_000

-- The two products of a small difference, and the same below zero.
scaled_pos :
    (d : ℕ)
    → d < 2 ^ 90
    → wrap128 (wrap128 (wrap128 (pos d) *ℤ pos one) *ℤ pos 100) ≡ pos (d * percent_unit)
unfolding ◌*ℤ◌
scaled_pos d h =
    let factors : d * one * 100 ≡ d * percent_unit = omega arith in
    rw
      (
        wrap128-pos d (omega arith),
        wrap128-pos (d * one) (omega arith),
        factors,
        wrap128-pos (d * percent_unit) (omega arith),
      )
      refl

scaled_neg :
    (d : ℕ)
    → d < 2 ^ 90
    → wrap128 (wrap128 (wrap128 (neg d) *ℤ pos one) *ℤ pos 100) ≡ neg (d * percent_unit)
scaled_neg d h =
    let factors : d * one * 100 ≡ d * percent_unit = omega arith in
    rw
      (
        wrap128-neg d (omega arith),
        neg-times d one,
        wrap128-neg (d * one) (omega arith),
        neg-times (d * one) 100,
        factors,
        wrap128-neg (d * percent_unit) (omega arith),
      )
      refl

-- For positive answers below 2 ^ 90, where no product wraps, the deviation is the distance of the
-- two answers in units of a hundred-millionth of a percent of the first, rounded down, whichever
-- of them is larger.
pub deviation-exact :
    (last new : ℕ)
    → 0 < last
    → 0 < new
    → last < 2 ^ 90
    → new < 2 ^ 90
    → deviation (pos last) (pos new)
      ≡ some (pos ((max last new - min last new) * 10_000_000_000 / last))
unfolding deviation ◌-ℤ◌ quot
deviation-exact last new h k p q = elim (le-lt-cases last new) [
  | inl up ↦
      let d = new - last in
      let bound = div-le_self (d * percent_unit) last in
      let size : max last new - min last new ≡ d = omega arith in
      let step : pos new -ℤ pos last ≡ pos d = ground arith in
      rw
        (
          ==-false new 0 (λ e. omega (arith, e)),
          ==-false last 0 (λ e. omega (arith, e)),
          step,
          scaled_pos d (omega arith),
          size,
          wrap128-pos (d * percent_unit / last) (omega (arith, bound)),
          wrap128-pos (d * percent_unit / last) (omega (arith, bound)),
        )
        refl
  | inr down ↦
      let d = last - new in
      let bound = div-le_self (d * percent_unit) last in
      let size : max last new - min last new ≡ d = omega arith in
      let step : pos new -ℤ pos last ≡ neg d = ground arith in
      rw
        (
          ==-false new 0 (λ e. omega (arith, e)),
          ==-false last 0 (λ e. omega (arith, e)),
          step,
          scaled_neg d (omega arith),
          size,
          quot-neg (d * percent_unit) last,
          wrap128-neg (d * percent_unit / last) (omega (arith, bound)),
          abs-neg (d * percent_unit / last),
          wrap128-pos (d * percent_unit / last) (omega (arith, bound)),
        )
        refl
]
