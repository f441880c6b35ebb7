-- ===== src/Wide.antt =====
-- Exact 256-bit multiply-then-divide for u128 operands: cli/src/model/wide.rs. A 256-bit value is
-- the pair of its high and its low word.
pub mod Product
pub mod Division
pub mod Quotient
pub mod Floor
mod Tests
use Prim.Native.Nat.{bit_or}
use crossfoot.Base.{
  ℕ, zero, suc, ◌+◌, ◌-◌, ◌*◌, ◌/◌, ◌%◌, ◌^◌, Bool, ◌||◌, Option, none, some, ltb, leb, ◌==◌,
  if◌then◌else◌, u64_mod, u128_mod, add128, mul128, sub128, checked_add, and_then,
}

-- `a.overflowing_add(b)`: the wrapped sum, and whether it wrapped.
pub overflowing_add : ℕ → ℕ → ℕ × Bool
unfolding add128
overflowing_add a b = (add128 a b, leb u128_mod (a + b))

-- `x << n` in 128 bits
pub shl128 : ℕ → ℕ → ℕ
shl128 x n = (x * 2 ^ n) % u128_mod

-- Combine the cross terms, carrying into the high word.
pub combine : (lo_lo lo_hi hi_lo hi_hi : ℕ) → ℕ × ℕ
unfolding add128 overflowing_add shl128
combine lo_lo lo_hi hi_lo hi_hi =
    let (mid, mid_wrapped) = overflowing_add lo_hi hi_lo in
    let carry_a : ℕ = if mid_wrapped then shl128 1 64 else 0 in
    let (low, low_wrapped) = overflowing_add lo_lo (shl128 mid 64) in
    let carry_b : ℕ = if low_wrapped then 1 else 0 in
    let high = add128 (add128 (add128 hi_hi (mid / 2 ^ 64)) carry_a) carry_b in (high, low)

unfoldable pub mul_full : ℕ → ℕ → ℕ × ℕ
unfolding mul128 combine
mul_full a b =
    let a_lo = a % u64_mod in
    let a_hi = a / 2 ^ 64 in
    let b_lo = b % u64_mod in
    let b_hi = b / 2 ^ 64 in
    let lo_lo = mul128 a_lo b_lo in
    let lo_hi = mul128 a_lo b_hi in
    let hi_lo = mul128 a_hi b_lo in let hi_hi = mul128 a_hi b_hi in combine lo_lo lo_hi hi_lo hi_hi

-- Bit `bit` of the 256-bit value (hi, lo).
pub current_bit : ℕ → ℕ → ℕ → ℕ
current_bit hi lo bit = if leb 128 bit then hi / 2 ^ (bit - 128) % 2 else lo / 2 ^ bit % 2

-- The long division. The count is the number of bits still to be read, so the loop's `bit` is one
-- less; `remainder >> 127 == 1` tells that doubling leaves the word.
unfoldable pub div_loop : (hi lo divisor : ℕ) → (count quotient remainder : ℕ) → Option ℕ
unfolding current_bit shl128 sub128
div_loop hi lo divisor zero quotient remainder = some quotient
div_loop hi lo divisor (suc bit) quotient remainder =
    let overflowed = remainder / 2 ^ 127 == 1 in
    let doubled = bit_or (shl128 remainder 1) (current_bit hi lo bit) in
    let taken =
      div_loop hi lo divisor bit (bit_or quotient (shl128 1 bit)) (sub128 doubled divisor) in
    let skipped = div_loop hi lo divisor bit quotient doubled in
    if overflowed || leb divisor doubled then if leb 128 bit then none else taken else skipped

unfoldable pub div_256 : ℕ → ℕ → ℕ → Option ℕ
div_256 hi lo divisor =
    if divisor == 0
    then none
    else (if hi == 0 then some (lo / divisor) else div_loop hi lo divisor 256 0 0)

-- floor(a * b / divisor)
unfoldable pub mul_div_floor : ℕ → ℕ → ℕ → Option ℕ
mul_div_floor a b divisor = let (hi, lo) = mul_full a b in div_256 hi lo divisor

-- floor((a * b + add) / divisor)
unfoldable pub mul_add_div_floor : ℕ → ℕ → ℕ → ℕ → Option ℕ
unfolding overflowing_add checked_add
mul_add_div_floor a b add divisor =
    let (hi, lo) = mul_full a b in
    let (lo', wrapped) = overflowing_add lo add in
    let carry : ℕ = if wrapped then 1 else 0 in
    and_then (checked_add hi carry) (λ hi'. div_256 hi' lo' divisor)
