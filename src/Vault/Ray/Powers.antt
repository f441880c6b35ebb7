-- ===== src/Vault/Ray/Powers.antt =====
-- sky.rs, `rpow`: the power it computes, in unbounded numbers.
use crossfoot.Base.{
  ℕ, zero, suc, ◌+◌, ◌*◌, ◌/◌, ◌%◌, ◌^◌, ◌≤◌, ◌<◌, ◌≡◌, ◌⊎◌, Option, none, some, true, arith, ◌==◌,
  if◌then◌else◌, Bool-cases, le-lt-cases, ==-false, inl, inr, u64_mod, u128_mod,
}
use crossfoot.Vault.Ray.{ray, ray_product, accumulate, rpow_loop, rpow}
use crossfoot.Vault.Ray.Growth.{ray_product-floor}

-- The product of two rays, rounded half up.
abbrev pub rounded : ℕ → ℕ → ℕ
rounded a b = (a * b + ray / 2) / ray

-- What `z` times the power `n` of the square of `x` comes to, bit after bit of `n` and each product
-- rounded; none where one that is needed does not fit in a `u128`.
pub data Powers : (z x n : ℕ) → Option ℕ → Type 0 where
  finished : {z x n : ℕ} → n ≡ 0 → Powers z x n (some z)
  even_bit :
      {z x n : ℕ} {out : Option ℕ} (m : ℕ)
      → n ≡ 2 * m
      → 0 < m
      → rounded x x < u128_mod
      → Powers z (rounded x x) m out
      → Powers z x n out
  odd_bit :
      {z x n : ℕ} {out : Option ℕ} (m : ℕ)
      → n ≡ 2 * m + 1
      → rounded x x < u128_mod
      → rounded z (rounded x x) < u128_mod
      → Powers (rounded z (rounded x x)) (rounded x x) m out
      → Powers z x n out
  square_over : {z x n : ℕ} → 0 < n → u128_mod ≤ rounded x x → Powers z x n none
  product_over :
      {z x n : ℕ} (m : ℕ)
      → n ≡ 2 * m + 1
      → rounded x x < u128_mod
      → u128_mod ≤ rounded z (rounded x x)
      → Powers z x n none

product_cases :
    (a b : ℕ)
    → a < u128_mod
    → b < u128_mod
    → ((rounded a b < u128_mod) × (ray_product a b ≡ some (rounded a b)))
      ⊎ ((u128_mod ≤ rounded a b) × (ray_product a b ≡ none))
product_cases a b ha hb = elim (le-lt-cases u128_mod (rounded a b)) [
  | inl over ↦ inr (over, rw (ray_product-floor a b ha hb) (ground (arith, over)))
  | inr fits ↦ inl (fits, rw (ray_product-floor a b ha hb) (ground (arith, fits)))
]

-- The loop ends within one round more than the bits of the exponent.
rpow_loop-Powers :
    (fuel z x n : ℕ)
    → z < u128_mod
    → x < u128_mod
    → n < 2 ^ fuel
    → Powers z x n (rpow_loop (suc fuel) z x n)
unfolding rpow_loop accumulate
rpow_loop-Powers zero z x n hz hx h =
    let e : n ≡ 0 = omega (arith, h) in
    let done : (n == 0) ≡ true = ground (arith, e) in rw done (finished e)
rpow_loop-Powers (suc fuel) z x n hz hx h = elim (Bool-cases (n == 0)) [
  | inl done ↦ rw done (finished (ground (arith, done)))
  | inr more ↦
      let positive : 0 < n = ground (arith, more) in
      elim (product_cases x x hx hx) [
        | inr (over, e) ↦ rw (more, e) (square_over positive over)
        | inl (fits, e) ↦ elim (Bool-cases (n % 2 == 0)) [
          | inl even ↦
              let halved : n ≡ 2 * (n / 2) = ground (arith, even) in
              rw (more, e, even)
                (even_bit (n / 2) halved (omega (arith, halved, positive)) fits
                  (rpow_loop-Powers fuel z (rounded x x) (n / 2) hz fits (omega (arith, h))))
          | inr odd ↦
              let halved : n ≡ 2 * (n / 2) + 1 = ground (arith, odd) in
              elim (product_cases z (rounded x x) hz fits) [
                | inr (over, e') ↦ rw (more, e, odd, e') (product_over (n / 2) halved fits over)
                | inl (kept, e') ↦
                    rw (more, e, odd, e')
                      (odd_bit (n / 2) halved fits kept (
                        rpow_loop-Powers fuel (rounded z (rounded x x)) (rounded x x) (n / 2) kept
                          fits (omega (arith, h))))
              ]
        ]
      ]
]

-- The power of a ray that is not 0, for any number of seconds in a u64, ends within its fuel of 65
-- rounds and is what squaring and multiplying come to when every product is rounded half up in
-- unbounded numbers: from one ray, or from the ray itself for an odd exponent, through the bits of the
-- exponent's half. It is none exactly where such a product does not fit in a u128.
pub rpow-Powers :
    (x n : ℕ)
    → 0 < x
    → x < u128_mod
    → n < u64_mod
    → Powers (if n % 2 == 0 then ray else x) x (n / 2) (rpow x n)
unfolding rpow
rpow-Powers x n positive word h =
    let nonzero = ==-false x 0 (λ e. omega (arith, e, positive)) in
    rw nonzero (
      rpow_loop-Powers 64 (if n % 2 == 0 then ray else x) x (n / 2) (ground arith) word
        (omega (arith, h)))
