-- ===== src/Base/Bits.antt =====
-- `|` on words, where the operands share no digit: it is then a sum.
use Prim.Native.Nat.{
  digits, bit_or, bit_or-bitwise, ℕ, zero, suc, max, ◌^◌, ◌+◌, ◌*◌, ◌/◌, ◌%◌, ◌≤◌, ◌<◌,
}
use mathlib.Core.Path.{◌≡◌, refl, sym, ap, ap₂, ◌∙◌}
use native.Mathlib.Nat.{pow-suc, mul_assoc}
use native.Mathlib.Omega.{arith}

-- The digits of `a | b`, with a count of digits to go.
abbrev or_digits : ℕ → ℕ → ℕ → ℕ
or_digits n a b = digits (λ b. b) max n a b

or_digits_fuel : (f g x y : ℕ) → x ≤ f → x ≤ g → or_digits f x y ≡ or_digits g x y
or_digits_fuel zero zero x y h k = refl
or_digits_fuel zero (suc g) zero y h k = refl
or_digits_fuel (suc f) zero zero y h k = refl
or_digits_fuel (suc f) (suc g) zero y h k = refl
or_digits_fuel zero (suc g) (suc x) y h k = absurd (omega arith)
or_digits_fuel (suc f) zero (suc x) y h k = absurd (omega arith)
or_digits_fuel (suc f) (suc g) (suc x) y h k =
    let less : suc x / 2 ≤ f = omega arith in
    let less' : suc x / 2 ≤ g = omega arith in
    omega (arith, or_digits_fuel f g (suc x / 2) (y / 2) less less')

zero-bit_or : (y : ℕ) → bit_or 0 y ≡ y
zero-bit_or y = bit_or-bitwise 0 y

-- The lowest digit apart from the others.
bit_or_step : (x y : ℕ) → bit_or x y ≡ max (x % 2) (y % 2) + bit_or (x / 2) (y / 2) * 2
bit_or_step zero y = omega (arith, zero-bit_or y, zero-bit_or (y / 2))
bit_or_step (suc x) y =
    let half = suc x / 2 in
    let enough : half ≤ x = omega arith in
    let itself : half ≤ half = omega arith in
    omega (
      arith,
      bit_or-bitwise (suc x) y,
      bit_or-bitwise half (y / 2),
      or_digits_fuel x half half (y / 2) enough itself,
    )

bit_or-zero_below : (n a : ℕ) → a ≤ n → bit_or a 0 ≡ a
bit_or-zero_below n zero h = zero-bit_or 0
bit_or-zero_below zero (suc a) h = absurd (omega arith)
bit_or-zero_below (suc n) (suc a) h =
    omega (arith, bit_or_step (suc a) 0, bit_or-zero_below n (suc a / 2) (omega arith))

bit_or-zero : (a : ℕ) → bit_or a 0 ≡ a
bit_or-zero a = bit_or-zero_below a a (omega arith)

-- A digit written into the empty lowest place.
pub bit_or-low : (a c : ℕ) → c < 2 → bit_or (a * 2) c ≡ a * 2 + c
bit_or-low a c h =
    let half : a * 2 / 2 ≡ a = omega arith in
    let none_left : c / 2 ≡ 0 = omega arith in
    omega (arith, rw (half, none_left) at (bit_or_step (a * 2) c), bit_or-zero a)

-- Doubling both operands doubles a sum.
bit_or-double : (y p : ℕ) → bit_or y p ≡ y + p → bit_or (y * 2) (p * 2) ≡ y * 2 + p * 2
bit_or-double y p h =
    let high : y * 2 / 2 ≡ y = omega arith in
    let low : p * 2 / 2 ≡ p = omega arith in
    omega (arith, rw (high, low) at (bit_or_step (y * 2) (p * 2)))

-- A digit written into place `n` of a number whose places up to `n` are empty.
pub bit_or-pow : (n a : ℕ) → bit_or (a * 2 ^ suc n) (2 ^ n) ≡ a * 2 ^ suc n + 2 ^ n
bit_or-pow zero a = bit_or-low a 1 (omega arith)
bit_or-pow (suc n) a =
    let twice : a * 2 ^ suc (suc n) ≡ a * 2 ^ suc n * 2 =
      ap (λ t. a * t) (pow-suc 2 (suc n)) ∙ sym (mul_assoc a (2 ^ suc n) 2) in
    let place : 2 ^ suc n ≡ 2 ^ n * 2 = pow-suc 2 n in
    ap₂ bit_or twice place
    ∙ bit_or-double (a * 2 ^ suc n) (2 ^ n) (bit_or-pow n a)
    ∙ sym (ap₂ ◌+◌ twice place)

-- A number below 2 ^ n beside one whose lowest `n` places are empty.
pub bit_or-disjoint : (n x y : ℕ) → x < 2 ^ n → bit_or x (y * 2 ^ n) ≡ x + y * 2 ^ n
bit_or-disjoint zero x y h =
    let e : x ≡ 0 = omega arith in rw e (zero-bit_or (y * 2 ^ 0) ∙ omega arith)
bit_or-disjoint (suc n) x y h =
    let twice : y * 2 ^ suc n ≡ y * 2 ^ n * 2 =
      ap (λ t. y * t) (pow-suc 2 n) ∙ sym (mul_assoc y (2 ^ n) 2) in
    let place : 2 ^ suc n ≡ 2 ^ n * 2 = pow-suc 2 n in
    let high : y * 2 ^ n * 2 / 2 ≡ y * 2 ^ n = omega arith in
    let low : y * 2 ^ n * 2 % 2 ≡ 0 = omega arith in
    let half = bit_or-disjoint n (x / 2) y (omega (arith, place)) in
    let step = rw (high, low, half) at (bit_or_step x (y * 2 ^ n * 2)) in
    rw twice (omega (arith, step))

-- The same with the operands the other way round.
pub bit_or-above : (n x y : ℕ) → x < 2 ^ n → bit_or (y * 2 ^ n) x ≡ y * 2 ^ n + x
bit_or-above zero x y h =
    let e : x ≡ 0 = omega arith in rw e (bit_or-zero (y * 2 ^ 0) ∙ omega arith)
bit_or-above (suc n) x y h =
    let twice : y * 2 ^ suc n ≡ y * 2 ^ n * 2 =
      ap (λ t. y * t) (pow-suc 2 n) ∙ sym (mul_assoc y (2 ^ n) 2) in
    let place : 2 ^ suc n ≡ 2 ^ n * 2 = pow-suc 2 n in
    let high : y * 2 ^ n * 2 / 2 ≡ y * 2 ^ n = omega arith in
    let low : y * 2 ^ n * 2 % 2 ≡ 0 = omega arith in
    let half = bit_or-above n (x / 2) y (omega (arith, place)) in
    let step = rw (high, low, half) at (bit_or_step (y * 2 ^ n * 2) x) in
    rw twice (omega (arith, step))
