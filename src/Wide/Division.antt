-- ===== src/Wide/Division.antt =====
-- wide.rs, one round of the loop of `div_256`: the bit that it reads, and its test and remainders
-- in numbers that do not wrap.
use Prim.Native.Nat.{bit_or}
use native.Mathlib.Nat.{
  pow-suc, one-le-pow, add-zero, add-suc, mul-one, mul_assoc, mul_left_comm, div-add-mod',
  div-div-eq-div-mul, mul-add-div,
}
use crossfoot.Base.{
  ℕ, zero, suc, ◌+◌, ◌-◌, ◌*◌, ◌/◌, ◌%◌, ◌^◌, ◌≤◌, ◌<◌, ◌≡◌, sym, ap, ◌∙◌, ◌||◌, true, false, inl,
  inr, arith, ltb, leb, ◌==◌, if◌then◌else◌, le-lt-cases, le→leb, lt→leb, u128_mod, sub128,
}
use crossfoot.Base.Bits.{bit_or-low}
use crossfoot.Wide.{shl128, current_bit}
use crossfoot.Wide.Product.{value}

pub pow-pos : (n : ℕ) → 0 < 2 ^ n
pow-pos n = one-le-pow n 2 (omega arith)

pow-add : (m n : ℕ) → 2 ^ (m + n) ≡ 2 ^ m * 2 ^ n
pow-add m zero = rw add-zero (sym (mul-one (2 ^ m)))
pow-add m (suc n) =
    rw (add-suc, pow-suc 2 (m + n), pow-suc 2 n, pow-add m n) (mul_assoc (2 ^ m) (2 ^ n) 2)

-- The bit that the loop reads is that of the value.
pub current_bit-value :
    (hi lo bit : ℕ) → lo < u128_mod → current_bit hi lo bit ≡ value (hi, lo) / 2 ^ bit % 2
unfolding current_bit
current_bit-value hi lo bit h = elim (le-lt-cases 128 bit) [
  | inl high ↦
      let e : bit ≡ 128 + (bit - 128) = omega arith in
      let whole : value (hi, lo) / 2 ^ bit ≡ hi / 2 ^ (bit - 128) =
        ap (λ t. value (hi, lo) / 2 ^ t) e
        ∙ ap (λ t. value (hi, lo) / t) (pow-add 128 (bit - 128))
        ∙ sym (div-div-eq-div-mul (value (hi, lo)) u128_mod (2 ^ (bit - 128)))
        ∙ ap (λ t. t / 2 ^ (bit - 128)) (omega arith) in
      rw (le→leb 128 bit high, whole)
  | inr low ↦
      let e : 128 ≡ bit + suc (127 - bit) = omega arith in
      let q = 2 ^ (127 - bit) in
      let split : u128_mod ≡ 2 ^ bit * (q * 2) =
        ap (λ t. 2 ^ t) e
        ∙ pow-add bit (suc (127 - bit))
        ∙ ap (λ t. 2 ^ bit * t) (pow-suc 2 (127 - bit)) in
      let whole : value (hi, lo) / 2 ^ bit ≡ hi * (q * 2) + lo / 2 ^ bit =
        ap (λ t. t / 2 ^ bit)
          (ap (λ t. hi * t + lo) split ∙ ap (λ t. t + lo) (mul_left_comm hi (2 ^ bit) (q * 2)))
        ∙ mul-add-div (pow-pos bit) (hi * (q * 2)) lo in
      rw (lt→leb 128 bit low, whole) (omega arith)
]

-- One more bit of a number, read from the top.
pub mod-pow_suc : (n k : ℕ) → n % 2 ^ suc k ≡ n / 2 ^ k % 2 * 2 ^ k + n % 2 ^ k
mod-pow_suc n k =
    let p = 2 ^ k in
    let d = n / p in
    let halved : n / (p * 2) ≡ d / 2 = sym (div-div-eq-div-mul n p 2) in
    let digit : d ≡ d / 2 * 2 + d % 2 = omega arith in
    let whole = div-add-mod' n p in
    let double : d / 2 * (p * 2) + n % (p * 2) ≡ n = rw halved at (div-add-mod' n (p * 2)) in
    rw (pow-suc 2 k) (omega (arith, whole, double, ap (λ (t : ℕ). t * p) digit))

-- The test of the loop and its two remainders, in numbers that do not wrap.
module _ (r c d : ℕ) (rd : r < d) (dw : d < u128_mod) (cb : c < 2) where
  doubled-exact :
      bit_or (shl128 r 1) c ≡ (if ltb r (2 ^ 127) then r * 2 + c else r * 2 + c - u128_mod)
  unfolding shl128
  doubled-exact =
      let even : r * 2 % u128_mod / 2 * 2 ≡ r * 2 % u128_mod = omega arith in
      let sum = rw even at (bit_or-low (r * 2 % u128_mod / 2) c cb) in ground (arith, sum)

  pub subtracts : d ≤ r * 2 + c → (r / 2 ^ 127 == 1 || leb d (bit_or (shl128 r 1) c)) ≡ true
  subtracts h = ground (arith, doubled-exact)

  pub keeps : r * 2 + c < d → (r / 2 ^ 127 == 1 || leb d (bit_or (shl128 r 1) c)) ≡ false
  keeps h = ground (arith, doubled-exact)

  pub subtracted : d ≤ r * 2 + c → sub128 (bit_or (shl128 r 1) c) d ≡ r * 2 + c - d
  unfolding sub128
  subtracted h = ground (arith, doubled-exact)

  pub kept : r * 2 + c < d → bit_or (shl128 r 1) c ≡ r * 2 + c
  kept h = ground (arith, doubled-exact)
