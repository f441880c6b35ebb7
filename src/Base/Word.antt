-- ===== src/Base/Word.antt =====
-- Rust's `u64` and `u128`: plain numbers, with the wrap of an optimised build written out, and the
-- `checked_`, `saturating_` and `try_from` forms.
use Prim.Native.Nat.{ℕ, suc, ◌+◌, ◌-◌, ◌*◌, ◌/◌, ◌%◌, ◌^◌, ◌≤◌, ◌<◌}
use mathlib.Core.Path.{◌≡◌, ap}
use mathlib.Core.Logic.{inl, inr}
use mathlib.Core.Option.{Option, none, some}
use native.Mathlib.Nat.{mod-eq_of_lt, div-add-mod, mod-lt, mul-le-mul_right}
use native.Mathlib.Omega.{arith}
use crossfoot.Base.Tests.{le-lt-cases, ltb, leb, ◌==◌, if◌then◌else◌}

abbrev pub u64_mod : ℕ
u64_mod = 2 ^ 64

abbrev pub u128_mod : ℕ
u128_mod = 2 ^ 128

abbrev pub u64_max : ℕ
u64_max = u64_mod - 1

abbrev pub u128_max : ℕ
u128_max = u128_mod - 1

unfoldable pub add64 : ℕ → ℕ → ℕ
add64 a b = (a + b) % u64_mod

unfoldable pub sub64 : ℕ → ℕ → ℕ
sub64 a b = (a + u64_mod - b) % u64_mod

-- `a.saturating_sub(b)` of an unsigned type
unfoldable pub saturating_sub : ℕ → ℕ → ℕ
saturating_sub a b = a - b

unfoldable pub add128 : ℕ → ℕ → ℕ
add128 a b = (a + b) % u128_mod

unfoldable pub mul128 : ℕ → ℕ → ℕ
mul128 a b = (a * b) % u128_mod

unfoldable pub sub128 : ℕ → ℕ → ℕ
sub128 a b = (a + u128_mod - b) % u128_mod

unfoldable pub checked_add : ℕ → ℕ → Option ℕ
checked_add a b = if ltb (a + b) u128_mod then some (a + b) else none

unfoldable pub checked_sub : ℕ → ℕ → Option ℕ
checked_sub a b = if leb b a then some (a - b) else none

unfoldable pub checked_mul : ℕ → ℕ → Option ℕ
checked_mul a b = if ltb (a * b) u128_mod then some (a * b) else none

-- `u64::try_from`
unfoldable pub try_u64 : ℕ → Option ℕ
try_u64 a = if ltb a u64_mod then some a else none

-- `a.div_ceil(b)`
unfoldable pub div_ceil : ℕ → ℕ → ℕ
div_ceil a b = if a % b == 0 then a / b else a / b + 1

pub add64-exact : (a b : ℕ) → a + b < u64_mod → add64 a b ≡ a + b
unfolding add64
add64-exact a b h = mod-eq_of_lt h

pub sub64-exact : (a b : ℕ) → b ≤ a → a < u64_mod → sub64 a b ≡ a - b
unfolding sub64
sub64-exact a b h k = omega arith

pub add128-exact : (a b : ℕ) → a + b < u128_mod → add128 a b ≡ a + b
unfolding add128
add128-exact a b h = mod-eq_of_lt h

pub mul128-exact : (a b : ℕ) → a * b < u128_mod → mul128 a b ≡ a * b
unfolding mul128
mul128-exact a b h = mod-eq_of_lt h

pub sub128-exact : (a b : ℕ) → b ≤ a → a < u128_mod → sub128 a b ≡ a - b
unfolding sub128
sub128-exact a b h k = omega arith

-- A product of two `u64` fits in a `u128`.
pub mul-lt-u128 : (a b : ℕ) → a < u64_mod → b < u64_mod → a * b < u128_mod
mul-lt-u128 a b h k = grind arith

div_ceil-le : (a b k : ℕ) → 0 < b → a ≤ k * b → div_ceil a b ≤ k
unfolding div_ceil
div_ceil-le a b k h p = elim (le-lt-cases (suc k) (a / b)) [
  | inl over ↦ absurd (omega (arith, div-add-mod a b, mul-le-mul_right b over))
  | inr at_most ↦ elim (le-lt-cases k (a / b)) [
    | inl same ↦
        let e : a / b ≡ k = omega arith in
        let r : a % b ≡ 0 = omega (arith, div-add-mod a b, ap (λ (t : ℕ). b * t) e) in ground arith
    | inr below ↦ ground arith
  ]
]

-- `div_ceil a b` is the least multiplier of `b` that reaches `a`.
pub div_ceil_least :
    (a b k : ℕ) → 0 < b → (div_ceil a b ≤ k → a ≤ k * b) × (a ≤ k * b → div_ceil a b ≤ k)
unfolding div_ceil
div_ceil_least a b k h =
    (λ p. grind (arith, div-add-mod a b, mod-lt a h, mul-le-mul_right b p), div_ceil-le a b k h)
