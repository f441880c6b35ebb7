-- ===== src/Wide/Floor.antt =====
-- wide.rs, the two public functions against plain division of unbounded numbers.
use Prim.Native.Nat.add
use native.Mathlib.Nat.{mul-le-mul}
use crossfoot.Base.{
  ℕ, zero, suc, ◌+◌, ◌-◌, ◌*◌, ◌/◌, ◌%◌, ◌^◌, ◌≤◌, ◌<◌, ◌≡◌, refl, ap, ◌∙◌, Option, none, some,
  true, le-lt-cases, lt→ltb, le→leb, lt→leb, inl, inr, arith, ltb, ◌==◌, if◌then◌else◌, u128_mod,
}
use crossfoot.Wide.{div_256, mul_full, mul_div_floor, mul_add_div_floor}
use crossfoot.Wide.Product.{value, mul_full-exact}
use crossfoot.Wide.Quotient.{div_loop-floor}

-- floor(n / d) where the divisor is not zero and the quotient fits in a u128.
abbrev pub floor : ℕ → ℕ → Option ℕ
floor n d = if d == 0 then none else (if ltb (n / d) u128_mod then some (n / d) else none)

pub div_256-floor :
    (hi lo d : ℕ)
    → hi < u128_mod
    → lo < u128_mod
    → d < u128_mod
    → div_256 hi lo d ≡ floor (value (hi, lo)) d
unfolding div_256
div_256-floor hi lo zero p q r = refl
div_256-floor zero lo (suc d) p q r = ground (arith, add.zero lo)
div_256-floor (suc hi) lo (suc d) p q r =
    let all_bits : 0 + value (suc hi, lo) % 2 ^ 256 ≡ value (suc hi, lo) = omega arith in
    let loop =
      rw all_bits at (div_loop-floor (suc hi) lo (suc d) (omega arith) r q 256 0 0 (omega arith)) in
    ground (arith, loop, add.zero (value (suc hi, lo) / suc d))

-- The room that the largest product leaves in two words.
mul-lt : (a b : ℕ) → a < u128_mod → b < u128_mod → a * b ≤ (u128_mod - 1) * (u128_mod - 1)
mul-lt a b p q =
    let p' : a ≤ u128_mod - 1 = omega arith in
    let q' : b ≤ u128_mod - 1 = omega arith in mul-le-mul p' q'

-- For words, `mul_div_floor` is the floor of the exact quotient of the exact product: `None` for a
-- zero divisor and for a quotient that does not fit in a u128, and nothing is lost otherwise.
pub mul_div_floor-floor :
    (a b d : ℕ) → a < u128_mod → b < u128_mod → d < u128_mod → mul_div_floor a b d ≡ floor (a * b) d
unfolding mul_div_floor
mul_div_floor-floor a b d p q r =
    let (exact, low) = mul_full-exact a b p q in
    div_256-floor (mul_full a b).0 (mul_full a b).1 d (omega (arith, mul-lt a b p q)) low r
    ∙ ap (λ t. floor t d) exact

-- For words, `mul_add_div_floor` is the floor of the exact quotient of the product plus the added
-- word: `None` for a zero divisor and for a quotient that does not fit in a u128. The addition
-- carries into the high word and never out of it.
pub mul_add_div_floor-floor :
    (a b add d : ℕ)
    → a < u128_mod
    → b < u128_mod
    → add < u128_mod
    → d < u128_mod
    → mul_add_div_floor a b add d ≡ floor (a * b + add) d
unfolding mul_add_div_floor
mul_add_div_floor-floor a b add d p q s r =
    let (exact, low) = mul_full-exact a b p q in
    let hi = (mul_full a b).0 in
    let lo = (mul_full a b).1 in
    let room = mul-lt a b p q in
    elim (le-lt-cases u128_mod (lo + add)) [
      | inl wraps ↦
          let word : ltb (hi + 1) u128_mod ≡ true = lt→ltb (hi + 1) u128_mod (omega arith) in
          let sum : value (hi + 1, (lo + add) % u128_mod) ≡ a * b + add = omega arith in
          rw (le→leb u128_mod (lo + add) wraps, word)
            (div_256-floor (hi + 1) ((lo + add) % u128_mod) d (omega arith) (omega arith) r
              ∙ ap (λ t. floor t d) sum)
      | inr fits ↦
          let word : ltb (hi + 0) u128_mod ≡ true = lt→ltb (hi + 0) u128_mod (omega arith) in
          let sum : value (hi + 0, (lo + add) % u128_mod) ≡ a * b + add = omega arith in
          rw (lt→leb u128_mod (lo + add) fits, word)
            (div_256-floor (hi + 0) ((lo + add) % u128_mod) d (omega arith) (omega arith) r
              ∙ ap (λ t. floor t d) sum)
    ]
