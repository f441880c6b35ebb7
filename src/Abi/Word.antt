-- ===== src/Abi/Word.antt =====
-- abi.rs: the number that a list of digits stands for, the highest first: the bytes of a word with
-- base 256, its limbs with base 2 ^ 32.
use native.Mathlib.Nat.{mul-le-mul_right}
use crossfoot.Base.{
  ℕ, zero, suc, ◌+◌, ◌*◌, ◌^◌, ◌<◌, ◌≡◌, refl, arith, List, [], ◌∷◌, length, All, true, false, ap,
  ◌≤◌,
}
use crossfoot.Abi.{limbs_of, any_nonzero}
use crossfoot.Abi.Hex.{IsBytes}

unfoldable pub power : (base n : ℕ) → ℕ
power base zero = 1
power base (suc n) = base * power base n

unfoldable pub number : (base : ℕ) → List ℕ → ℕ
number base [] = 0
number base (d ∷ ds) = d * power base (length ds) + number base ds

abbrev pub AreBelow : ℕ → List ℕ → Type 0
AreBelow base ds = All (λ (d : ℕ). d < base) ds

pub power_pos : (base n : ℕ) → 0 < base → 0 < power base n
unfolding power
power_pos base zero h = omega arith
power_pos base (suc n) h = grind (arith, power_pos base n h)

pub number-lt :
    (base : ℕ) (ds : List ℕ) → AreBelow base ds → number base ds < power base (length ds)
unfolding number power
number-lt base [] h = omega arith
number-lt base (d ∷ ds) (low, rest) =
    let below = number-lt base ds rest in
    let most : (d + 1) * power base (length ds) ≤ base * power base (length ds) =
      mul-le-mul_right (power base (length ds)) (omega arith) in
    omega (arith, below, most)

-- Four bytes to a limb.
pub limbs_of-number :
    (k : ℕ) (bytes : List ℕ)
    → length bytes ≡ k * 4
    → IsBytes bytes
    → (number (2 ^ 32) (limbs_of bytes) ≡ number 256 bytes)
      × (power (2 ^ 32) (length (limbs_of bytes)) ≡ power 256 (length bytes))
      × AreBelow (2 ^ 32) (limbs_of bytes)
      × (length (limbs_of bytes) ≡ k)
unfolding limbs_of number power
limbs_of-number zero [] e h = (refl, refl, tt, refl)
limbs_of-number zero (a ∷ bytes) e h = absurd (omega arith)
limbs_of-number (suc k) (a ∷ b ∷ c ∷ d ∷ bytes) e (ha, (hb, (hc, (hd, h)))) =
    let (same, powers, below, count) = limbs_of-number k bytes (omega arith) h in
    let limb = ((a * 256 + b) * 256 + c) * 256 + d in
    let scaled = ap (λ p. limb * p) powers in
    (omega (arith, same, scaled), omega (arith, powers), (omega arith, below), omega (arith, count))
limbs_of-number (suc k) [] e h = absurd (omega arith)
limbs_of-number (suc k) (a ∷ []) e h = absurd (omega arith)
limbs_of-number (suc k) (a ∷ b ∷ []) e h = absurd (omega arith)
limbs_of-number (suc k) (a ∷ b ∷ c ∷ []) e h = absurd (omega arith)

-- The test of the loop.
pub any_nonzero-number :
    (limbs : List ℕ)
    → (number (2 ^ 32) limbs ≡ 0 → any_nonzero limbs ≡ false)
      × (0 < number (2 ^ 32) limbs → any_nonzero limbs ≡ true)
unfolding number
any_nonzero-number [] = (λ h. refl, λ h. absurd (omega arith))
any_nonzero-number (zero ∷ limbs) =
    let (clear, set) = any_nonzero-number limbs in
    (λ h. clear (omega (arith, h)), λ h. set (omega (arith, h)))
any_nonzero-number (suc l ∷ limbs) =
    let some_place = power_pos (2 ^ 32) (length limbs) (omega arith) in
    (λ h. absurd (omega (arith, h, some_place)), λ h. ground arith)
