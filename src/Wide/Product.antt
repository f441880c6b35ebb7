-- ===== src/Wide/Product.antt =====
-- wide.rs, `mul_full`: the schoolbook product over 64-bit halves is the exact product.
use crossfoot.Base.{
  ℕ, ◌+◌, ◌-◌, ◌*◌, ◌/◌, ◌%◌, ◌≤◌, ◌<◌, ◌≡◌, sym, ◌∙◌, arith, u64_mod, u128_mod, mul128-exact,
}
use mathlib.Core.Path.{ap₂}
use native.Mathlib.Nat.{div-add-mod', mul-le-mul}
use crossfoot.Wide.{mul_full, combine}

-- The value of a pair of words.
abbrev pub value : ℕ × ℕ → ℕ
value w = w.0 * u128_mod + w.1

-- The largest product of two 64-bit halves.
abbrev pub half_max : ℕ
half_max = (u64_mod - 1) * (u64_mod - 1)

pub half_product : (x y : ℕ) → x < u64_mod → y < u64_mod → x * y ≤ half_max
half_product x y h k =
    let p : x ≤ u64_mod - 1 = omega arith in let q : y ≤ u64_mod - 1 = omega arith in mul-le-mul p q

-- No carry is lost: the four partial products add up in two words.
combine-exact :
    (ll lh hl hh : ℕ)
    → ll ≤ half_max
    → lh ≤ half_max
    → hl ≤ half_max
    → hh ≤ half_max
    → (value (combine ll lh hl hh) ≡ hh * u128_mod + (lh + hl) * u64_mod + ll)
      × ((combine ll lh hl hh).1 < u128_mod)
unfolding combine
combine-exact ll lh hl hh p q r s = ground arith

-- (ah * w + al) * (bh * w + bl) by its four partial products.
expand :
    (ah al bh bl w : ℕ)
    → (ah * w + al) * (bh * w + bl) ≡ ah * bh * (w * w) + (al * bh + ah * bl) * w + al * bl
expand ah al bh bl w = omega arith

-- `mul_full` returns the two words of the exact product.
pub mul_full-exact :
    (a b : ℕ)
    → a < u128_mod
    → b < u128_mod
    → (value (mul_full a b) ≡ a * b) × ((mul_full a b).1 < u128_mod)
unfolding mul_full
mul_full-exact a b h k =
    let al = a % u64_mod in
    let ah = a / u64_mod in
    let bl = b % u64_mod in
    let bh = b / u64_mod in
    let ll = half_product al bl (omega arith) (omega arith) in
    let lh = half_product al bh (omega arith) (omega arith) in
    let hl = half_product ah bl (omega arith) (omega arith) in
    let hh = half_product ah bh (omega arith) (omega arith) in
    let ea : ah * u64_mod + al ≡ a = div-add-mod' a u64_mod in
    let eb : bh * u64_mod + bl ≡ b = div-add-mod' b u64_mod in
    let (total, low) = combine-exact (al * bl) (al * bh) (ah * bl) (ah * bh) ll lh hl hh in
    rw
      (
        mul128-exact al bl (omega arith),
        mul128-exact al bh (omega arith),
        mul128-exact ah bl (omega arith),
        mul128-exact ah bh (omega arith),
      )
      (total ∙ sym (expand ah al bh bl u64_mod) ∙ ap₂ ◌*◌ ea eb, low)
