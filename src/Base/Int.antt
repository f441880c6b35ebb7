-- ===== src/Base/Int.antt =====
-- Signed numbers over the native numbers, and Rust's `i128` on them.
use Prim.Native.Nat.{ℕ, zero, suc, ◌+◌, ◌-◌, ◌*◌, ◌/◌, ◌%◌, ◌^◌, ◌≤◌, ◌<◌}
use native.Mathlib.Nat.{zero-mul, zero-div}
use mathlib.Core.Path.{◌≡◌, refl}
use mathlib.Core.Bool.{Bool}
use native.Mathlib.Omega.{arith}
use crossfoot.Base.Tests.{leb, ltb, if◌then◌else◌}

-- `negsuc n` is -(n + 1).
pub data ℤ : Type 0 where
  pos : ℕ → ℤ
  negsuc : ℕ → ℤ

-- The difference of two naturals.
abbrev pub difference : ℕ → ℕ → ℤ
difference a b = if leb b a then pos (a - b) else negsuc (b - a - 1)

abbrev pub neg : ℕ → ℤ
neg n = difference 0 n

-- An integer is the difference of its two parts, one of them 0.
abbrev pub pos_part : ℤ → ℕ
pos_part (pos n) = n
pos_part (negsuc n) = 0

abbrev pub neg_part : ℤ → ℕ
neg_part (pos n) = 0
neg_part (negsuc n) = suc n

infixl 65 ◌+ℤ◌ ◌-ℤ◌
unfoldable pub ◌+ℤ◌ : ℤ → ℤ → ℤ
pos a +ℤ pos b = pos (a + b)
pos a +ℤ negsuc b = difference a (suc b)
negsuc a +ℤ pos b = difference b (suc a)
negsuc a +ℤ negsuc b = negsuc (suc (a + b))

unfoldable pub ◌-ℤ◌ : ℤ → ℤ → ℤ
a -ℤ b = difference (pos_part a + neg_part b) (pos_part b + neg_part a)

infixl 70 ◌*ℤ◌
unfoldable pub ◌*ℤ◌ : ℤ → ℤ → ℤ
pos a *ℤ pos b = pos (a * b)
pos a *ℤ negsuc b = neg (a * suc b)
negsuc a *ℤ pos b = neg (suc a * b)
negsuc a *ℤ negsuc b = pos (suc a * suc b)

-- Division that rounds toward zero.
unfoldable pub quot : ℤ → ℤ → ℤ
quot (pos a) (pos b) = pos (a / b)
quot (pos a) (negsuc b) = neg (a / suc b)
quot (negsuc a) (pos b) = neg (suc a / b)
quot (negsuc a) (negsuc b) = pos (suc a / suc b)

abbrev pub abs : ℤ → ℤ
abs (pos n) = pos n
abs (negsuc n) = pos (suc n)

infix 50 ◌≤ℤ◌
abbrev pub ◌≤ℤ◌ : ℤ → ℤ → Type 0
a ≤ℤ b = pos_part a + neg_part b ≤ pos_part b + neg_part a

infix 50 ◌<ℤ◌
abbrev pub ◌<ℤ◌ : ℤ → ℤ → Type 0
a <ℤ b = pos_part a + neg_part b < pos_part b + neg_part a

abbrev pub ltb_ℤ : ℤ → ℤ → Bool
ltb_ℤ a b = ltb (pos_part a + neg_part b) (pos_part b + neg_part a)

abbrev pub half_i128 : ℕ
half_i128 = 2 ^ 127

-- The two's complement reading of a residue modulo 2 ^ 128.
abbrev pub signed : ℕ → ℤ
signed u = difference u (if ltb u half_i128 then 0 else 2 ^ 128)

-- `i128` arithmetic wraps to this; `as i128` of a `u128` does too.
unfoldable pub wrap128 : ℤ → ℤ
wrap128 (pos n) = signed (n % 2 ^ 128)
wrap128 (negsuc n) = signed (2 ^ 128 - 1 - n % 2 ^ 128)

abbrev pub half_i64 : ℕ
half_i64 = 2 ^ 63

-- The same for `i64`: its arithmetic, and `as i64` of a `u64`.
unfoldable pub wrap64 : ℤ → ℤ
wrap64 (pos n) = difference (n % 2 ^ 64) (if ltb (n % 2 ^ 64) half_i64 then 0 else 2 ^ 64)
wrap64 (negsuc n) =
    let u = 2 ^ 64 - 1 - n % 2 ^ 64 in difference u (if ltb u half_i64 then 0 else 2 ^ 64)

pub wrap64-pos : (n : ℕ) → n < half_i64 → wrap64 (pos n) ≡ pos n
unfolding wrap64
wrap64-pos n h = ground arith

pub difference-add : (a b : ℕ) → pos b +ℤ difference a b ≡ pos a
unfolding ◌+ℤ◌
difference-add a b = ground arith

pub wrap128-pos : (n : ℕ) → n < half_i128 → wrap128 (pos n) ≡ pos n
unfolding wrap128
wrap128-pos n h = ground arith

pub wrap128-neg : (n : ℕ) → n < half_i128 → wrap128 (neg n) ≡ neg n
unfolding wrap128
wrap128-neg n h = ground arith

neg-suc : (n : ℕ) → neg (suc n) ≡ negsuc n
neg-suc n = ground arith

-- A product and a quotient by a positive number keep the sign.
pub neg-times : (n m : ℕ) → neg n *ℤ pos m ≡ neg (n * m)
unfolding ◌*ℤ◌
neg-times zero m = rw (zero-mul m) refl
neg-times (suc n) m = rw (neg-suc n) refl

pub quot-neg : (n m : ℕ) → quot (neg n) (pos m) ≡ neg (n / m)
unfolding quot
quot-neg zero m = rw (zero-div m) refl
quot-neg (suc n) m = rw (neg-suc n) refl

pub abs-neg : (n : ℕ) → abs (neg n) ≡ pos n
abs-neg n = ground arith
