-- ===== src/Frax/Exp.antt =====
-- frax.rs, `exp2_fixed` and `exp2_ud`: the loop over limbs is one over plain numbers.
use native.Mathlib.Nat.{mul-le-mul_right, mul-le-mul_left}
use mathlib.Core.Path.{subst}
use crossfoot.Base.{
  ℕ, ◌+◌, ◌-◌, ◌*◌, ◌/◌, ◌%◌, ◌^◌, ◌≤◌, ◌<◌, ◌≡◌, refl, ap, ◌∙◌, arith, Bool, true, ◌&&◌, none,
  some, List, [], ◌∷◌, ltb, leb, if◌then◌else◌, Bool-cases, inl, inr, u128_mod,
}
use crossfoot.Frax.{mul_u256_u128, shr_u256, to_u128}
use crossfoot.Frax.Rate.{
  one_ether, exp2_factors, exp2_scaled, is_set, multiply, exp2_loop, exp2_fixed,
}
use crossfoot.Frax.Limbs.{value}
use crossfoot.Frax.Product.{mul_u256_u128-exact}
use crossfoot.Frax.Shift.{IsNumber, shr_u256-quotient, to_u128-exact}

-- The loop over plain numbers: each set bit multiplies by its factor, rounded down.
unfoldable pub exact_loop : (x i : ℕ) → (factors : List ℕ) → (r : ℕ) → ℕ
exact_loop x i [] r = r
exact_loop x i (factor ∷ factors) r =
    exact_loop x (i + 1) factors (if is_set x i then r * factor / 2 ^ 64 else r)

-- 2 to the power of `x` at the scale of 1e18, with the integer part beside it.
unfoldable pub exact_power : (x integer : ℕ) → ℕ
exact_power x integer = exact_loop x 0 exp2_factors (2 ^ 191) * one_ether / 2 ^ (191 - integer)

-- 2 to the power of `x`, which has 64 bits of fraction, at the scale of 1e18.
unfoldable pub exact_exp2 : ℕ → ℕ
exact_exp2 x = exact_power x (x / 2 ^ 64)

-- Every product stays below 2 ^ 256, also where all bits are set, and ends at most at `limit`.
unfoldable pub fits : (limit : ℕ) → (factors : List ℕ) → (m : ℕ) → Bool
fits limit [] m = leb m limit
fits limit (factor ∷ factors) m =
    leb (2 ^ 64) factor
    && ltb factor u128_mod
    && ltb (m * factor) (2 ^ 256)
    && fits limit factors (m * factor / 2 ^ 64)

-- One factor, within the bound.
multiply-IsNumber :
    (limbs : List ℕ) (r factor : ℕ)
    → IsNumber 4 r limbs
    → factor < u128_mod
    → r * factor < 2 ^ 256
    → (out : List ℕ) × (multiply limbs factor ≡ some out) × IsNumber 4 (r * factor / 2 ^ 64) out
unfolding multiply
multiply-IsNumber limbs r factor (words, four, total) hf below =
    let (exact, _, _) = mul_u256_u128-exact limbs factor four words hf in
    let (out, e, words', four', total') = exact (rw total below) in
    let (words'', same, total'') = shr_u256-quotient out 64 words' in
    (
      shr_u256 out 64,
      rw e refl,
      (
        words'',
        omega (arith, same, four'),
        total'' ∙ ap (λ t. t / 2 ^ 64) (total' ∙ ap (λ t. t * factor) total),
      ),
    )

exp2_loop-IsNumber :
    (limit x i : ℕ) (factors limbs : List ℕ) (r m : ℕ)
    → IsNumber 4 r limbs
    → r ≤ m
    → fits limit factors m ≡ true
    → (out : List ℕ) × (exp2_loop x i factors limbs ≡ some out)
      × IsNumber 4 (exact_loop x i factors r) out
      × (exact_loop x i factors r ≤ limit)
unfolding exp2_loop exact_loop fits
exp2_loop-IsNumber limit x i [] limbs r m number h ok = (limbs, refl, number, ground arith)
exp2_loop-IsNumber limit x i (factor ∷ factors) limbs r m number h ok =
    let large : 2 ^ 64 ≤ factor = ground arith in
    let word : factor < u128_mod = ground arith in
    let product : m * factor < 2 ^ 256 = ground arith in
    let rest : fits limit factors (m * factor / 2 ^ 64) ≡ true = ground arith in
    let less : r * factor ≤ m * factor = mul-le-mul_right factor h in
    let grows : m * 2 ^ 64 ≤ m * factor = mul-le-mul_left m large in
    elim (Bool-cases (is_set x i)) [
      | inl set ↦
          let (out, e, number') =
            multiply-IsNumber limbs r factor number word (omega (arith, less, product)) in
          rw (set, e)
            (exp2_loop-IsNumber limit x (i + 1) factors out (r * factor / 2 ^ 64)
              (m * factor / 2 ^ 64) number' (omega (arith, less)) rest)
      | inr clear ↦ rw clear (
          exp2_loop-IsNumber limit x (i + 1) factors limbs r (m * factor / 2 ^ 64) number
            (omega (arith, grows)) rest)
    ]

pub loop_fits : fits (2 ^ 192) exp2_factors (2 ^ 191) ≡ true
unfolding fits
loop_fits = refl

start-IsNumber : IsNumber 4 (2 ^ 191) (0 ∷ 0 ∷ 2 ^ 63 ∷ 0 ∷ [])
unfolding value
start-IsNumber = ((omega arith, (omega arith, (omega arith, (omega arith, tt)))), refl, refl)

-- The loop leaves a number below 2 ^ 192 in four limbs.
pub exp2_loop_start :
    (x : ℕ)
    → (out : List ℕ) × (exp2_loop x 0 exp2_factors (0 ∷ 0 ∷ 2 ^ 63 ∷ 0 ∷ []) ≡ some out)
      × IsNumber 4 (exact_loop x 0 exp2_factors (2 ^ 191)) out
      × (exact_loop x 0 exp2_factors (2 ^ 191) ≤ 2 ^ 192)
exp2_loop_start x =
    exp2_loop-IsNumber (2 ^ 192) x 0 exp2_factors (0 ∷ 0 ∷ 2 ^ 63 ∷ 0 ∷ []) (2 ^ 191) (2 ^ 191)
      start-IsNumber (omega arith) loop_fits

narrowed :
    (limbs : List ℕ) (t : ℕ)
    → IsNumber 4 t limbs
    → (t < u128_mod → to_u128 limbs ≡ some t) × (u128_mod ≤ t → to_u128 limbs ≡ none)
narrowed limbs t (words, four, total) =
    subst (λ n. (n < u128_mod → to_u128 limbs ≡ some n) × (u128_mod ≤ n → to_u128 limbs ≡ none))
      total (to_u128-exact limbs four words)

-- The scaling and the last shift of a number in four limbs.
scaled-IsNumber :
    (limbs : List ℕ) (r shift : ℕ)
    → IsNumber 4 r limbs
    → r ≤ 2 ^ 192
    → (out : List ℕ) × (mul_u256_u128 limbs one_ether ≡ some out)
      × IsNumber 4 (r * one_ether / 2 ^ shift) (shr_u256 out shift)
scaled-IsNumber limbs r shift (words, four, total) h =
    let (exact, _, _) = mul_u256_u128-exact limbs one_ether four words (omega arith) in
    let (out, e, words', four', total') = exact (rw total (omega (arith, h))) in
    let (words'', same, total'') = shr_u256-quotient out shift words' in
    (
      out,
      e,
      (
        words'',
        omega (arith, same, four'),
        total'' ∙ ap (λ t. t / 2 ^ shift) (total' ∙ ap (λ t. t * one_ether) total),
      ),
    )

exp2_scaled-exact :
    (x integer : ℕ)
    → (exact_power x integer < u128_mod → exp2_scaled x integer ≡ some (exact_power x integer))
      × (u128_mod ≤ exact_power x integer → exp2_scaled x integer ≡ none)
unfolding exp2_scaled exact_power
exp2_scaled-exact x integer =
    let (out, e, loop_number, below) = exp2_loop_start x in
    let (scaled, e', number) =
      scaled-IsNumber out (exact_loop x 0 exp2_factors (2 ^ 191)) (191 - integer) loop_number
        below in
    rw (e, e') (narrowed (shr_u256 scaled (191 - integer)) _ number)

-- The power of two is exact to the last place of the loop: within the range of its integer part it
-- returns the number that unbounded arithmetic gives, where that is a `u128`, and refuses it
-- otherwise; a larger integer part, below 2 ^ 32, is refused too.
pub exp2_fixed-exact :
    (x : ℕ)
    → x < 2 ^ 96
    → (x < 192 * 2 ^ 64 → exact_exp2 x < u128_mod → exp2_fixed x ≡ some (exact_exp2 x))
      × (x < 192 * 2 ^ 64 → u128_mod ≤ exact_exp2 x → exp2_fixed x ≡ none)
      × (192 * 2 ^ 64 ≤ x → exp2_fixed x ≡ none)
unfolding exp2_fixed exact_exp2
exp2_fixed-exact x h =
    let whole : x / 2 ^ 64 % 2 ^ 32 ≡ x / 2 ^ 64 = omega arith in
    let (within, beyond) = exp2_scaled-exact x (x / 2 ^ 64) in
    (
      λ p q. rw whole (ground (arith, within q)),
      λ p q. rw whole (ground (arith, beyond q)),
      λ p. rw whole (ground arith),
    )
