-- ===== src/Frax/Product.antt =====
-- frax.rs, `mul_u256_u128`: the carries of the limbs are those of the product.
use crossfoot.Base.{
  ℕ, zero, suc, ◌+◌, ◌-◌, ◌*◌, ◌/◌, ◌%◌, ◌^◌, ◌≤◌, ◌<◌, ◌≡◌, refl, ap, arith, Option, none, some,
  List, [], ◌∷◌, length, u64_mod, u128_mod, add128, mul128, add128-exact, mul128-exact,
}
use crossfoot.Wide.Product.{half_product}
use native.Mathlib.Nat.{mul-le-mul}
use crossfoot.Frax.{update, mul_row, carry_loop, mul_rows, lower_limbs, zero_limbs, mul_u256_u128}
use crossfoot.Frax.Limbs.{value, IsLimbs, place, value-lt, value-zero_limbs, zero_limbs-IsLimbs}

-- What a computation that adds `added` at limb `k` leaves: the limbs, as many and as large as
-- before, and a carry for limb `next` below `limit`.
abbrev pub Adds : (out : List ℕ) (added next limit : ℕ) → Option (List ℕ × ℕ) → Type 0
Adds out added next limit computed =
    (out' : List ℕ) × (carry : ℕ) × (computed ≡ some (out', carry))
    × IsLimbs out'
    × (length out' ≡ length out)
    × (u64_mod * carry < limit)
    × ((value out' + carry * place next) ≡ (value out + added))

pub update-Adds :
    (k : ℕ) (f : ℕ → ℕ) (x : ℕ) (out : List ℕ)
    → k < length out
    → IsLimbs out
    → ((o : ℕ) → o < u64_mod → f o ≡ o + x)
    → Adds out (x * place k) (suc k) (u64_mod + x) (update k f out)
unfolding update value place
update-Adds k f x [] h limbs exact = absurd (omega arith)
update-Adds zero f x (o ∷ out) h (word, words) exact =
    let e = exact o word in
    (
      f o % u64_mod ∷ out,
      f o / u64_mod,
      refl,
      (omega arith, words),
      refl,
      omega (arith, e),
      omega (arith, e),
    )
update-Adds (suc k) f x (o ∷ out) h (word, words) exact =
    let (out', carry, e, words', same, below, total) =
      update-Adds k f x out (omega arith) words exact in
    (o ∷ out', carry, rw e refl, (word, words'), omega (arith, same), below, omega (arith, total))

-- `a * b + o + carry` leaves no `u128`.
product_fits :
    (a b c o : ℕ)
    → a < u64_mod
    → b < u64_mod
    → c < u64_mod
    → o < u64_mod
    → add128 (add128 (mul128 a b) o) c ≡ o + (a * b + c)
product_fits a b c o ha hb hc ho =
    let largest = half_product a b ha hb in
    rw
      (
        mul128-exact a b (omega (arith, largest)),
        add128-exact (a * b) o (omega (arith, largest)),
        add128-exact (a * b + o) c (omega (arith, largest)),
      )
      (omega arith)

next_carry :
    (a b c d : ℕ)
    → a < u64_mod
    → b < u64_mod
    → c < u64_mod
    → u64_mod * d < u64_mod + (a * b + c)
    → d < u64_mod
next_carry a b c d ha hb hc h = let largest = half_product a b ha hb in omega (arith, largest)

-- One row of the product, from limb `k` on.
pub mul_row-Adds :
    (a : ℕ) (bs : List ℕ) (k : ℕ) (out : List ℕ) (c : ℕ)
    → a < u64_mod
    → IsLimbs bs
    → k + length bs ≤ length out
    → IsLimbs out
    → c < u64_mod
    → Adds out
        ((a * value bs + c) * place k)
        (k + length bs)
        (u64_mod * u64_mod)
        (mul_row a bs k out c)
unfolding mul_row value place
mul_row-Adds a [] k out c ha hb room limbs hc =
    let same : k + 0 ≡ k = omega arith in
    let e = ap place same in
    (out, c, refl, limbs, refl, omega arith, omega (arith, e, ap (λ (p : ℕ). c * p) e))
mul_row-Adds a (b ∷ bs) k out c ha (hb, hbs) room limbs hc =
    let (out1, c1, e1, limbs1, same1, below1, total1) =
      update-Adds k (λ o. add128 (add128 (mul128 a b) o) c) (a * b + c) out (omega arith) limbs
        (λ o ho. product_fits a b c o ha hb hc ho) in
    let (out2, c2, e2, limbs2, same2, below2, total2) =
      mul_row-Adds a bs (suc k) out1 c1 ha hbs (omega (arith, same1)) limbs1
        (next_carry a b c c1 ha hb hc below1) in
    let same : k + suc (length bs) ≡ suc k + length bs = omega arith in
    let e : c2 * place (k + suc (length bs)) ≡ c2 * place (suc k + length bs) =
      ap (λ n. c2 * place n) same in
    (
      out2,
      c2,
      rw e1 e2,
      limbs2,
      omega (arith, same1, same2),
      below2,
      omega (arith, e, total1, total2),
    )

-- What a computation that returns the limbs of `total` leaves.
abbrev pub Holds : (size total : ℕ) → Option (List ℕ) → Type 0
Holds size total computed =
    (out : List ℕ) × (computed ≡ some out) × IsLimbs out × (length out ≡ size) × (value out ≡ total)

-- The carries stop within the limbs that hold the sum.
pub carry_loop-Holds :
    (fuel k : ℕ) (out : List ℕ) (c : ℕ)
    → k + fuel ≡ length out
    → IsLimbs out
    → c < u64_mod
    → value out + c * place k < place (length out)
    → Holds (length out) (value out + c * place k) (carry_loop fuel k out c)
unfolding carry_loop place
carry_loop-Holds fuel k out zero room limbs hc fits = (out, refl, limbs, refl, omega arith)
carry_loop-Holds zero k out (suc c) room limbs hc fits =
    let end : length out ≡ k = omega (arith, room) in absurd (omega (arith, ap place end))
carry_loop-Holds (suc fuel) k out (suc c) room limbs hc fits =
    let (out1, c1, e1, limbs1, same1, below1, total1) =
      update-Adds k (λ o. add128 o (suc c)) (suc c) out (omega arith) limbs
        (λ o ho. add128-exact o (suc c) (omega arith)) in
    let (out2, e2, limbs2, same2, total2) =
      carry_loop-Holds fuel (suc k) out1 c1 (omega (arith, same1)) limbs1 (omega arith)
        (omega (arith, total1, ap place same1)) in
    (out2, rw e1 e2, limbs2, omega (arith, same1, same2), omega (arith, total1, total2))

spread : (a l v p : ℕ) → (a + u64_mod * l) * v * p ≡ a * v * p + l * v * (u64_mod * p)
spread a l v p = omega arith

pub mul_rows-Holds :
    (limbs bs : List ℕ) (k : ℕ) (out : List ℕ)
    → k + length limbs ≤ 4
    → length bs ≡ 2
    → length out ≡ 6
    → IsLimbs limbs
    → IsLimbs bs
    → IsLimbs out
    → value out + value limbs * value bs * place k < place 6
    → Holds 6 (value out + value limbs * value bs * place k) (mul_rows limbs bs k out)
unfolding mul_rows value place
mul_rows-Holds [] bs k out room two six has hbs words fits = (out, refl, words, six, omega arith)
mul_rows-Holds (a ∷ limbs) bs k out room two six (ha, has) hbs words fits =
    let (out1, c1, e1, words1, same1, below1, total1) =
      mul_row-Adds a bs k out 0 ha hbs (omega (arith, two, six)) words (omega arith) in
    let next : k + length bs ≡ k + 2 = omega (arith, two) in
    let at_next = ap (λ n. c1 * place n) next in
    let six1 : length out1 ≡ 6 = omega (arith, same1, six) in
    let (out2, e2, words2, same2, total2) =
      carry_loop-Holds (4 - k) (k + 2) out1 c1 (omega (arith, six1)) words1 (omega arith)
        (omega (arith, total1, at_next, ap place six1)) in
    let whole : value out2 + value limbs * value bs * place (suc k)
        ≡ value out + value (a ∷ limbs) * value bs * place k =
      omega (arith, total1, total2, at_next, spread a (value limbs) (value bs) (place k)) in
    let (out3, e3, words3, same3, total3) =
      mul_rows-Holds limbs bs (suc k) out2 (omega arith) two (omega (arith, same2, six1)) has hbs
        words2 (omega (arith, whole)) in
    (out3, rw (e1, e2) e3, words3, same3, omega (arith, total3, whole))

lower_limbs-Holds :
    (out : List ℕ) (t : ℕ)
    → length out ≡ 6
    → IsLimbs out
    → value out ≡ t
    → (t < 2 ^ 256 → Holds 4 t (lower_limbs out)) × (2 ^ 256 ≤ t → lower_limbs out ≡ none)
unfolding value
lower_limbs-Holds (o0 ∷ o1 ∷ o2 ∷ o3 ∷ zero ∷ zero ∷ []) t six (h0, (h1, (h2, (h3, _)))) e = (
  λ h. (o0 ∷ o1 ∷ o2 ∷ o3 ∷ [], refl, (h0, (h1, (h2, (h3, tt)))), refl, omega (arith, e)),
  λ h. absurd (omega (arith, e)),
)
lower_limbs-Holds (o0 ∷ o1 ∷ o2 ∷ o3 ∷ zero ∷ suc o5 ∷ []) t six words e =
    (λ h. absurd (omega (arith, e)), λ h. ground arith)
lower_limbs-Holds (o0 ∷ o1 ∷ o2 ∷ o3 ∷ suc o4 ∷ o5 ∷ []) t six words e =
    (λ h. absurd (omega (arith, e)), λ h. ground arith)
lower_limbs-Holds ([]) t six words e = absurd (omega arith)
lower_limbs-Holds (o0 ∷ []) t six words e = absurd (omega arith)
lower_limbs-Holds (o0 ∷ o1 ∷ []) t six words e = absurd (omega arith)
lower_limbs-Holds (o0 ∷ o1 ∷ o2 ∷ []) t six words e = absurd (omega arith)
lower_limbs-Holds (o0 ∷ o1 ∷ o2 ∷ o3 ∷ []) t six words e = absurd (omega arith)
lower_limbs-Holds (o0 ∷ o1 ∷ o2 ∷ o3 ∷ o4 ∷ []) t six words e = absurd (omega arith)
lower_limbs-Holds (o0 ∷ o1 ∷ o2 ∷ o3 ∷ o4 ∷ o5 ∷ o6 ∷ out) t six words e = absurd (omega arith)

product_below : (x b : ℕ) → x < 2 ^ 256 → b < u128_mod → x * b < 2 ^ 384
product_below x b hx hb =
    let p : x ≤ 2 ^ 256 - 1 = omega arith in
    let q : b ≤ u128_mod - 1 = omega arith in
    let largest : x * b ≤ (2 ^ 256 - 1) * (u128_mod - 1) = mul-le-mul p q in omega (arith, largest)

rows-Holds :
    (a : List ℕ) (b : ℕ)
    → length a ≡ 4
    → IsLimbs a
    → b < u128_mod
    → Holds 6 (value a * b) (mul_rows a (b % u64_mod ∷ b / u64_mod ∷ []) 0 (zero_limbs 6))
unfolding place
rows-Holds a b four words hb =
    let bs = b % u64_mod ∷ b / u64_mod ∷ [] in
    let b_value : value bs ≡ b = unfold value in omega arith in
    let below : value a < 2 ^ 256 = omega (arith, value-lt a words, ap place four) in
    let start = value-zero_limbs 6 in
    let same : value a * value bs * place 0 ≡ value a * b = rw b_value (omega arith) in
    let (out, e, limbs, six, total) =
      mul_rows-Holds a bs 0 (zero_limbs 6) (omega (arith, four)) refl refl words
        (omega arith, (omega arith, tt)) (zero_limbs-IsLimbs 6)
        (omega (arith, start, same, product_below (value a) b below hb)) in
    (out, e, limbs, six, omega (arith, total, start, same))

-- The product of a 256-bit number and a `u128` is returned exactly, in four limbs, where it is below
-- 2 ^ 256, and is refused where it is not. On both sides the loops over the rows, whose `none` is an
-- index out of bounds, end with the six limbs of the product: a refusal is the test of the two upper
-- limbs and no panic.
pub mul_u256_u128-exact :
    (a : List ℕ) (b : ℕ)
    → length a ≡ 4
    → IsLimbs a
    → b < u128_mod
    → (value a * b < 2 ^ 256 → Holds 4 (value a * b) (mul_u256_u128 a b))
      × (2 ^ 256 ≤ value a * b → mul_u256_u128 a b ≡ none)
      × Holds 6 (value a * b) (mul_rows a (b % u64_mod ∷ b / u64_mod ∷ []) 0 (zero_limbs 6))
unfolding mul_u256_u128
mul_u256_u128-exact a b four words hb =
    let rows = rows-Holds a b four words hb in
    let (out, e, limbs, six, total) = rows in
    let (kept, refused) = lower_limbs-Holds out (value a * b) six limbs total in
    (rw e kept, rw e refused, rows)
