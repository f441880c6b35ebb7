-- ===== src/Abi/Limbs.antt =====
-- abi.rs, `word_to_decimal`: the long division over the limbs is the division of their number.
use native.Mathlib.Nat.{pow-suc}
use mathlib.Core.Path.{subst}
use crossfoot.Base.{
  ℕ, zero, suc, ◌+◌, ◌*◌, ◌/◌, ◌%◌, ◌^◌, ◌<◌, ◌≡◌, refl, ap, arith, some, List, [], ◌∷◌, length,
  le-lt-cases, lt→ltb, le→ltb, inl, inr, u64_mod,
}
use crossfoot.Base.Bits.{bit_or-above}
use crossfoot.Decimal.{print_digits}
use crossfoot.Abi.{divide_limbs, decimal_loop}
use crossfoot.Abi.Word.{number, power, AreBelow, any_nonzero-number}

spread : (r l p : ℕ) → (r * 2 ^ 32 + l) * p ≡ r * (2 ^ 32 * p) + l * p
spread r l p = omega arith

spread_ten : (q m p : ℕ) → (10 * q + m) * p ≡ 10 * (q * p) + m * p
spread_ten q m p = omega arith

-- The quotient and the remainder of the number, from the remainder of the limbs above.
divide_limbs-number :
    (r : ℕ) (limbs : List ℕ)
    → r < 10
    → AreBelow (2 ^ 32) limbs
    → (r * power (2 ^ 32) (length limbs) + number (2 ^ 32) limbs
        ≡ 10 * number (2 ^ 32) ((divide_limbs r limbs).0) + (divide_limbs r limbs).1)
      × ((divide_limbs r limbs).1 < 10)
      × AreBelow (2 ^ 32) ((divide_limbs r limbs).0)
      × (length ((divide_limbs r limbs).0) ≡ length limbs)
unfolding divide_limbs number power
divide_limbs-number r [] h below = (omega arith, h, tt, refl)
divide_limbs-number r (limb ∷ limbs) h (low, below) =
    let joined = bit_or-above 32 limb r low in
    let word : r * 2 ^ 32 % u64_mod ≡ r * 2 ^ 32 = omega arith in
    let c = r * 2 ^ 32 + limb in
    let (exact, last, quotients, count) = divide_limbs-number (c % 10) limbs (omega arith) below in
    let fits : c / 10 % 2 ^ 32 ≡ c / 10 = omega arith in
    let p = power (2 ^ 32) (length limbs) in
    let whole : c ≡ 10 * (c / 10) + c % 10 = omega arith in
    let parts = ap (λ t. t * p) whole in
    let places = ap (λ n. c / 10 * power (2 ^ 32) n) count in
    rw (word, joined, fits)
      (
        omega (arith, exact, parts, places, spread r limb p, spread_ten (c / 10) (c % 10) p),
        last,
        (omega arith, quotients),
        omega (arith, count),
      )

-- The digits that the loop pushes are those of the number, where the fuel is enough for it.
pub decimal_loop-print :
    (fuel : ℕ) (limbs digits : List ℕ)
    → AreBelow (2 ^ 32) limbs
    → number (2 ^ 32) limbs < 10 ^ fuel
    → (number (2 ^ 32) limbs ≡ 0 → decimal_loop fuel limbs digits ≡ some digits)
      × (0 < number (2 ^ 32) limbs
          → decimal_loop fuel limbs digits
            ≡ some (print_digits fuel (number (2 ^ 32) limbs) digits))
unfolding decimal_loop print_digits
decimal_loop-print zero limbs digits below h =
    let (clear, set) = any_nonzero-number limbs in
    (λ e. rw (clear e) refl, λ p. absurd (omega (arith, h, p)))
decimal_loop-print (suc fuel) limbs digits below h =
    let (clear, set) = any_nonzero-number limbs in
    let (exact, last, quotients, count) = divide_limbs-number 0 limbs (omega arith) below in
    let n = number (2 ^ 32) limbs in
    let qs = (divide_limbs 0 limbs).0 in
    let rest : number (2 ^ 32) qs ≡ n / 10 = omega (arith, exact, last) in
    let digit : (divide_limbs 0 limbs).1 ≡ n % 10 = omega (arith, exact, last) in
    let (stop, go) =
      decimal_loop-print fuel qs ((b'0' + n % 10) ∷ digits) quotients
        (omega (arith, rest, h, pow-suc 10 fuel)) in
    (
      λ e. rw (clear e) refl,
      λ p.
          rw (set p, digit)
            (elim (le-lt-cases 10 n) [
              | inr few ↦ rw (lt→ltb n 10 few) (stop (omega (arith, rest, few)))
              | inl more ↦ rw (le→ltb n 10 more) (
                  subst
                    (λ m.
                      decimal_loop fuel qs ((b'0' + n % 10) ∷ digits)
                      ≡ some (print_digits fuel m ((b'0' + n % 10) ∷ digits)))
                    rest (go (omega (arith, rest, more))))
            ]),
    )
