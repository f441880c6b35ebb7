-- ===== src/Frax/Shift.antt =====
-- frax.rs, `shr_u256` and `to_u128`: the shift over the limbs is the quotient by a power of two.
use Prim.Native.Nat.{bit_or}
use native.Mathlib.Nat.{
  div-add-mod, mod-lt, mul-add-div, div-lt_iff_lt-mul, div-div-eq-div-mul, two-pow-succ,
  mul-le-mul_right, one-le-pow, zero-div, div-le_self,
}
use crossfoot.Base.{
  ℕ, zero, suc, ◌+◌, ◌-◌, ◌*◌, ◌/◌, ◌%◌, ◌^◌, ◌≤◌, ◌<◌, ◌≡◌, refl, ap, sym, ◌∙◌, arith, none, some,
  List, [], ◌∷◌, ◌++◌, length, length-append, u64_mod, u128_mod, if◌then◌else◌, ltb,
}
use crossfoot.Base.Bits.{bit_or-disjoint}
use crossfoot.Frax.{shift_bits, shift_limbs, shr_u256, to_u128}
use crossfoot.Frax.Limbs.{value, IsLimbs, place}

-- A word by its quotient and remainder, times `q`.
spread : (w p q : ℕ) → p * q ≡ u64_mod → w * q ≡ w / p * u64_mod + w % p * q
spread w p q e =
    let parts : w * q ≡ w / p * (p * q) + w % p * q =
      ap (λ n. n * q) (sym (div-add-mod w p)) ∙ omega arith in
    rw e at parts

kept_below : (w p q : ℕ) → p * q ≡ u64_mod → 0 < p → 0 < q → (w % p + 1) * q ≤ u64_mod
kept_below w p q e hp hq =
    let least : w % p + 1 ≤ p = omega (arith, mod-lt w hp) in rw e at (mul-le-mul_right q least)

-- The bits of the next limb that the shift to the left keeps.
kept : (w p q : ℕ) → p * q ≡ u64_mod → 0 < p → 0 < q → w * q % u64_mod ≡ w % p * q
kept w p q e hp hq = omega (arith, spread w p q e, kept_below w p q e hp hq)

slot-lt :
    (v w p q : ℕ) → p * q ≡ u64_mod → 0 < p → 0 < q → v < u64_mod → v / p + w % p * q < u64_mod
slot-lt v w p q e hp hq hv =
    let high : v / p < q = (div-lt_iff_lt-mul hp).1 (omega (arith, e)) in
    omega (arith, high, kept_below w p q e hp hq)

-- One limb of the quotient, over the quotient of the limbs above it.
slot-quotient :
    (v w r p q : ℕ)
    → p * q ≡ u64_mod
    → 0 < p
    → 0 < q
    → v / p + w % p * q + u64_mod * ((w + u64_mod * r) / p) ≡ (v + u64_mod * (w + u64_mod * r)) / p
slot-quotient v w r p q e hp hq =
    let split : w + u64_mod * r ≡ p * (q * r) + w = ap (λ b. w + b * r) (sym e) ∙ omega arith in
    let total = w + u64_mod * r in
    let split' : v + u64_mod * total ≡ p * (q * total) + v =
      ap (λ b. v + b * total) (sym e) ∙ omega arith in
    let upper : (w + u64_mod * r) / p ≡ q * r + w / p =
      ap (λ n. n / p) split ∙ mul-add-div hp (q * r) w in
    let lower : (v + u64_mod * (w + u64_mod * r)) / p ≡ q * (w + u64_mod * r) + v / p =
      ap (λ n. n / p) split' ∙ mul-add-div hp (q * total) v in
    rw (upper, lower) (omega (arith, spread w p q e))

pub pow_add : (m n : ℕ) → 2 ^ (m + n) ≡ 2 ^ m * 2 ^ n
pow_add zero n = let e : 0 + n ≡ n = omega arith in rw e (omega arith)
pow_add (suc m) n =
    let next : suc m + n ≡ suc (m + n) = omega arith in
    ap (λ k. 2 ^ k) next
    ∙ omega (
      arith,
      two-pow-succ (m + n),
      two-pow-succ m,
      pow_add m n,
      ap (λ t. t * 2 ^ n) (two-pow-succ m),
    )

one_word : (bits : ℕ) → bits < 64 → 2 ^ bits * 2 ^ (64 - bits) ≡ u64_mod
one_word bits h =
    let all : bits + (64 - bits) ≡ 64 = omega arith in
    sym (pow_add bits (64 - bits)) ∙ ap (λ k. 2 ^ k) all

pub pow_pos : (n : ℕ) → 0 < 2 ^ n
pow_pos n = one-le-pow n 2 (omega arith)

-- The slot that the loop writes from limb `v` and the next limb `w`.
slot_eq :
    (bits v w : ℕ)
    → bits < 64
    → v < u64_mod
    → (if ltb 0 bits then bit_or (v / 2 ^ bits) (w * 2 ^ (64 - bits) % u64_mod) else v / 2 ^ bits)
      ≡ v / 2 ^ bits + w % 2 ^ bits * 2 ^ (64 - bits)
slot_eq zero v w h hv = omega arith
slot_eq (suc bits) v w h hv =
    let p = 2 ^ suc bits in
    let q = 2 ^ (64 - suc bits) in
    let e = one_word (suc bits) h in
    let high : v / p < q = (div-lt_iff_lt-mul (pow_pos (suc bits))).1 (omega (arith, e)) in
    let below = bit_or-disjoint (64 - suc bits) (v / p) (w % p) high in
    let joined : bit_or (v / p) (w * q % u64_mod) ≡ v / p + w % p * q =
      rw (kept w p q e (pow_pos (suc bits)) (pow_pos (64 - suc bits))) below in
    ground (arith, joined)

-- A list of limbs of a size and a value.
abbrev pub IsNumber : (size total : ℕ) → List ℕ → Type 0
IsNumber size total limbs = IsLimbs limbs × (length limbs ≡ size) × (value limbs ≡ total)

pub shift_bits-IsNumber :
    (bits : ℕ) (a : List ℕ)
    → bits < 64
    → IsLimbs a
    → IsNumber (length a) (value a / 2 ^ bits) (shift_bits bits a)
unfolding shift_bits value
shift_bits-IsNumber bits [] h words = (tt, refl, sym (zero-div (2 ^ bits)))
shift_bits-IsNumber bits (v ∷ []) h (word, words) =
    let alone : v + u64_mod * 0 ≡ v = omega arith in
    (
      (omega (arith, div-le_self v (2 ^ bits)), tt),
      refl,
      omega (arith, ap (λ n. n / 2 ^ bits) alone),
    )
shift_bits-IsNumber bits (v ∷ w ∷ rest) h (word, words) =
    let p = 2 ^ bits in
    let q = 2 ^ (64 - bits) in
    let (limbs, same, total) = shift_bits-IsNumber bits (w ∷ rest) h words in
    let e = one_word bits h in
    let slot = slot_eq bits v w h word in
    (
      (omega (arith, slot, slot-lt v w p q e (pow_pos bits) (pow_pos (64 - bits)) word), limbs),
      omega (arith, same),
      omega (
        arith,
        slot,
        total,
        slot-quotient v w (value rest) p q e (pow_pos bits) (pow_pos (64 - bits)),
      ),
    )

value-append : (limbs : List ℕ) → value (limbs ++ (0 ∷ [])) ≡ value limbs
unfolding value
value-append [] = refl
value-append (v ∷ rest) = omega (arith, value-append rest)

append-IsLimbs : (limbs : List ℕ) → IsLimbs limbs → IsLimbs (limbs ++ (0 ∷ []))
append-IsLimbs [] words = (omega arith, tt)
append-IsLimbs (v ∷ rest) (word, words) = (word, append-IsLimbs rest words)

pub shift_limbs-IsNumber :
    (limb bits : ℕ) (a : List ℕ)
    → bits < 64
    → IsLimbs a
    → IsNumber (length a) (value a / (place limb * 2 ^ bits)) (shift_limbs limb bits a)
unfolding shift_limbs value place
shift_limbs-IsNumber zero bits a h words =
    let (limbs, same, total) = shift_bits-IsNumber bits a h words in
    let alone : 1 * 2 ^ bits ≡ 2 ^ bits = omega arith in
    (limbs, same, total ∙ ap (λ n. value a / n) (sym alone))
shift_limbs-IsNumber (suc limb) bits [] h words =
    (tt, refl, sym (zero-div (place (suc limb) * 2 ^ bits)))
shift_limbs-IsNumber (suc limb) bits (v ∷ a) h (word, words) =
    let (limbs, same, total) = shift_limbs-IsNumber limb bits a h words in
    let moved = shift_limbs limb bits a in
    let assoc : u64_mod * place limb * 2 ^ bits ≡ u64_mod * (place limb * 2 ^ bits) = omega arith in
    let lowest : (v + u64_mod * value a) / u64_mod ≡ value a = omega arith in
    (
      append-IsLimbs moved limbs,
      omega (arith, same, length-append moved (0 ∷ [])),
      value-append moved
          ∙ total
          ∙ ap (λ n. n / (place limb * 2 ^ bits)) (sym lowest)
          ∙ div-div-eq-div-mul (v + u64_mod * value a) u64_mod (place limb * 2 ^ bits)
          ∙ ap (λ n. (v + u64_mod * value a) / n) (sym assoc),
    )

place-pow : (limb : ℕ) → place limb ≡ 2 ^ (limb * 64)
unfolding place
place-pow zero = refl
place-pow (suc limb) =
    let e : suc limb * 64 ≡ 64 + limb * 64 = omega arith in
    rw (e, pow_add 64 (limb * 64), sym (place-pow limb)) refl

-- The shift returns four limbs whose number is the quotient by 2 ^ n.
pub shr_u256-quotient :
    (a : List ℕ) (n : ℕ) → IsLimbs a → IsNumber (length a) (value a / 2 ^ n) (shr_u256 a n)
unfolding shr_u256
shr_u256-quotient a n words =
    let (limbs, same, total) = shift_limbs-IsNumber (n / 64) (n % 64) a (omega arith) words in
    let parts : n / 64 * 64 + n % 64 ≡ n = omega arith in
    let power : place (n / 64) * 2 ^ (n % 64) ≡ 2 ^ n =
      ap (λ t. t * 2 ^ (n % 64)) (place-pow (n / 64))
      ∙ sym (pow_add (n / 64 * 64) (n % 64))
      ∙ ap (λ k. 2 ^ k) parts in
    (limbs, same, total ∙ ap (λ t. value a / t) power)

-- Four limbs are a `u128` exactly where their number is one.
pub to_u128-exact :
    (a : List ℕ)
    → length a ≡ 4
    → IsLimbs a
    → (value a < u128_mod → to_u128 a ≡ some (value a)) × (u128_mod ≤ value a → to_u128 a ≡ none)
unfolding value
to_u128-exact (a0 ∷ a1 ∷ zero ∷ zero ∷ []) four (h0, (h1, _)) =
    let joined = bit_or-disjoint 64 a0 a1 h0 in
    let fits : a1 * 2 ^ 64 % u128_mod ≡ a1 * 2 ^ 64 = omega arith in
    let same : bit_or a0 (a1 * 2 ^ 64 % u128_mod)
        ≡ a0 + u64_mod * (a1 + u64_mod * (0 + u64_mod * (0 + u64_mod * 0))) =
      rw fits (joined ∙ omega arith) in
    (λ h. ap (λ n. some n) same, λ h. absurd (omega arith))
to_u128-exact (a0 ∷ a1 ∷ zero ∷ suc a3 ∷ []) four words =
    (λ h. absurd (omega arith), λ h. ground arith)
to_u128-exact (a0 ∷ a1 ∷ suc a2 ∷ a3 ∷ []) four words =
    (λ h. absurd (omega arith), λ h. ground arith)
to_u128-exact [] four words = absurd (omega arith)
to_u128-exact (a0 ∷ []) four words = absurd (omega arith)
to_u128-exact (a0 ∷ a1 ∷ []) four words = absurd (omega arith)
to_u128-exact (a0 ∷ a1 ∷ a2 ∷ []) four words = absurd (omega arith)
to_u128-exact (a0 ∷ a1 ∷ a2 ∷ a3 ∷ a4 ∷ a) four words = absurd (omega arith)
