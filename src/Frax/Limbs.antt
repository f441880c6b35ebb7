-- ===== src/Frax/Limbs.antt =====
-- frax.rs: the number that a list of limbs stands for.
use crossfoot.Base.{
  ℕ, zero, suc, ◌+◌, ◌*◌, ◌<◌, ◌≡◌, refl, arith, List, [], ◌∷◌, length, All, u64_mod,
}
use crossfoot.Frax.{zero_limbs}

unfoldable pub value : List ℕ → ℕ
value [] = 0
value (v ∷ rest) = v + u64_mod * value rest

-- Every limb is a `u64`.
abbrev pub IsLimbs : List ℕ → Type 0
IsLimbs limbs = All (λ (v : ℕ). v < u64_mod) limbs

-- The weight of limb `k`.
unfoldable pub place : ℕ → ℕ
place zero = 1
place (suc k) = u64_mod * place k

pub value-lt : (limbs : List ℕ) → IsLimbs limbs → value limbs < place (length limbs)
unfolding value place
value-lt [] h = omega arith
value-lt (v ∷ rest) (word, words) = omega (arith, value-lt rest words)

pub value-zero_limbs : (n : ℕ) → value (zero_limbs n) ≡ 0
unfolding value
value-zero_limbs zero = refl
value-zero_limbs (suc n) = omega (arith, value-zero_limbs n)

pub zero_limbs-IsLimbs : (n : ℕ) → IsLimbs (zero_limbs n)
zero_limbs-IsLimbs zero = tt
zero_limbs-IsLimbs (suc n) = (omega arith, zero_limbs-IsLimbs n)
