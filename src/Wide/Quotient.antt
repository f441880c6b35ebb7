-- ===== src/Wide/Quotient.antt =====
-- wide.rs, `div_256`: the binary long division returns the floor of the exact quotient, or `None`
-- where that does not fit in a u128.
use Prim.Native.Nat.{bit_or}
use native.Mathlib.Nat.{
  pow-suc, pow-le-pow_right, mod-lt, mul-add-div, mul-le-mul_right, div-lt_iff_lt-mul, div-eq_of_lt,
}
use crossfoot.Base.{
  ℕ, zero, suc, ◌+◌, ◌-◌, ◌*◌, ◌/◌, ◌%◌, ◌^◌, ◌≤◌, ◌<◌, ◌≡◌, sym, ap, ◌∙◌, Option, none, some, inl,
  inr, arith, ltb, leb, if◌then◌else◌, le-lt-cases, le→leb, lt→leb, u128_mod,
}
use crossfoot.Base.Bits.{bit_or-pow}
use crossfoot.Wide.{shl128, current_bit, div_loop}
use crossfoot.Wide.Product.{value}
use crossfoot.Wide.Division.{
  pow-pos, mod-pow_suc, current_bit-value, subtracts, keeps, subtracted, kept,
}

-- `q` more than the floor of `t / d`, where that floor is a word.
abbrev pub floor_from : (q t d : ℕ) → Option ℕ
floor_from q t d = if ltb (t / d) u128_mod then some (q + t / d) else none

module _ (d p m : ℕ) (dp : 0 < d) (mp : m < p) where
  -- One subtraction at place value `p` adds `p` to the quotient.
  quotient_step : (x : ℕ) → d ≤ x → (x * p + m) / d ≡ p + ((x - d) * p + m) / d
  quotient_step x h =
      let e : x * p + m ≡ d * p + ((x - d) * p + m) =
        let back : x ≡ d + (x - d) = omega arith in ap (λ t. t * p + m) back ∙ omega arith in
      ap (λ t. t / d) e ∙ mul-add-div dp p ((x - d) * p + m)

  -- A remainder below the divisor leaves a quotient below the place value.
  quotient_below : (r : ℕ) → r < d → (r * p + m) / d < p
  quotient_below r h = (div-lt_iff_lt-mul dp).1 (omega (arith, mul-le-mul_right p h))

-- The same floor, with the part `p` of it already counted.
floor_from-add :
    (q t u d p : ℕ)
    → t / d ≡ p + u / d
    → p + u / d < u128_mod
    → floor_from (q + p) u d ≡ floor_from q t d
floor_from-add q t u d p e h = ground arith

floor_from-none : (q t d : ℕ) → u128_mod ≤ t / d → floor_from q t d ≡ none
floor_from-none q t d h = ground arith

module _ (n : ℕ) where
  -- A quotient bit at or above 128 does not fit.
  guarded :
      {t u : Option ℕ}
      → (128 ≤ n → none ≡ u)
      → (n < 128 → t ≡ u)
      → (if leb 128 n then none else t) ≡ u
  guarded large small = elim (le-lt-cases 128 n) [
    | inl h ↦ rw (le→leb 128 n h) (large h)
    | inr h ↦ rw (lt→leb 128 n h) (small h)
  ]

  place_small : n < 128 → 2 ^ n * 2 ≤ u128_mod
  place_small h =
      omega (arith, pow-suc 2 n, pow-le-pow_right {n = 2} (omega arith) {i = suc n} {j = 128} h)

  place_large : 128 ≤ n → u128_mod ≤ 2 ^ n
  place_large h = pow-le-pow_right {n = 2} (omega arith) {i = 128} {j = n} h

  -- `quotient |= 1 << bit`
  set_bit : (a : ℕ) → n < 128 → bit_or (a * 2 ^ suc n) (shl128 1 n) ≡ (a * 2 + 1) * 2 ^ n
  unfolding shl128
  set_bit a h =
      let one : 1 * 2 ^ n % u128_mod ≡ 2 ^ n = omega (arith, place_small h, pow-pos n) in
      rw one (bit_or-pow n a ∙ omega (arith, ap (λ (t : ℕ). a * t) (pow-suc 2 n)))

module _ (hi lo d : ℕ) (dp : 0 < d) (dw : d < u128_mod) (low : lo < u128_mod) where
  abbrev pub rest : ℕ → ℕ
  rest n = value (hi, lo) % 2 ^ n

  bit-lt : (n : ℕ) → current_bit hi lo n < 2
  bit-lt n = rw (current_bit-value hi lo n low) (omega arith)

  -- One round reads the top bit of what is left.
  total : (n r : ℕ) → r * 2 ^ suc n + rest (suc n) ≡ (r * 2 + current_bit hi lo n) * 2 ^ n + rest n
  total n r =
      rw (current_bit-value hi lo n low, mod-pow_suc (value (hi, lo)) n, pow-suc 2 n) (omega arith)

  -- The loop, with `count` bits of the value left to read.
  pub div_loop-floor :
      (count a r : ℕ)
      → r < d
      → div_loop hi lo d count (a * 2 ^ count) r
        ≡ floor_from (a * 2 ^ count) (r * 2 ^ count + rest count) d
  unfolding div_loop
  div_loop-floor zero a r h =
      let e : r * 1 + value (hi, lo) % 1 ≡ r = omega arith in
      rw (e, div-eq_of_lt h) (ap some (omega arith))
  div_loop-floor (suc n) a r h =
      let c = current_bit hi lo n in
      let x = r * 2 + c in
      let p = 2 ^ n in
      let cb = bit-lt n in
      let q = a * 2 ^ suc n in
      let mp : rest n < p = mod-lt (value (hi, lo)) (pow-pos n) in
      elim (le-lt-cases d x) [
        | inl over ↦
            let step = quotient_step d p (rest n) dp mp x over in
            rw (total n r, subtracts r c d h dw cb over)
              (guarded n
                (λ large.
                  sym (
                    floor_from-none q (x * p + rest n) d
                      (omega (arith, step, place_large n large))))
                (λ small.
                  let below : x - d < d = omega arith in
                  let fits = quotient_below d p (rest n) dp mp (x - d) below in
                  let q' : (a * 2 + 1) * p ≡ q + p =
                    omega (arith, ap (λ (t : ℕ). a * t) (pow-suc 2 n)) in
                  rw (set_bit n a small, subtracted r c d h dw cb over)
                    (div_loop-floor n (a * 2 + 1) (x - d) below
                      ∙ ap (λ t. floor_from t ((x - d) * p + rest n) d) q'
                      ∙ floor_from-add q (x * p + rest n) ((x - d) * p + rest n) d p step
                          (omega (arith, place_small n small)))))
        | inr under ↦
            let q' : q ≡ a * 2 * p = omega (arith, ap (λ (t : ℕ). a * t) (pow-suc 2 n)) in
            rw (total n r, keeps r c d h dw cb under, kept r c d h dw cb under, q')
              (div_loop-floor n (a * 2) x under)
      ]
