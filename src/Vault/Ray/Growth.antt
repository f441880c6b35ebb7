-- ===== src/Vault/Ray/Growth.antt =====
-- sky.rs, `rpow`: a rate of at least one ray never shrinks what it compounds.
use native.Mathlib.Nat.{mul-le-mul}
use crossfoot.Base.{
  ℕ, zero, suc, ◌+◌, ◌*◌, ◌/◌, ◌%◌, ◌≤◌, ◌<◌, ◌≡◌, some, arith, ◌==◌, if◌then◌else◌,
  and_then-eq-some, u128_mod, Bool-cases, ==-false, inl, inr, sym, ◌∙◌,
}
use crossfoot.Wide.Floor.{floor, mul_add_div_floor-floor}
use crossfoot.Vault.Ray.{ray, ray_product, accumulate, rpow_loop, rpow}

-- A word that is at least one ray.
abbrev pub IsGrowth : ℕ → Type 0
IsGrowth x = (ray ≤ x) × (x < u128_mod)

abbrev half : ℕ
half = ray / 2

pub ray_product-floor :
    (a b : ℕ) → a < u128_mod → b < u128_mod → ray_product a b ≡ floor (a * b + half) ray
unfolding ray_product
ray_product-floor a b p q = mul_add_div_floor-floor a b half ray p q (omega arith) (omega arith)

pub floor-some : (n d : ℕ) {c : ℕ} → floor n d ≡ some c → (c ≡ n / d) × (c < u128_mod)
floor-some n d h = ground arith

-- The product of two such rays is at least the first.
pub ray_product-IsGrowth :
    (a b : ℕ) {c : ℕ} → IsGrowth a → IsGrowth b → ray_product a b ≡ some c → IsGrowth c × (a ≤ c)
ray_product-IsGrowth a b {c = c} (a_low, a_word) (b_low, b_word) h =
    let (exact, word) =
      floor-some (a * b + half) ray (sym (ray_product-floor a b a_word b_word) ∙ h) in
    let a_self : a ≤ a = omega arith in
    let product : a * ray ≤ a * b = mul-le-mul a_self b_low in
    let grown : a ≤ c = omega (arith, exact, product) in ((omega arith, word), grown)

accumulate-IsGrowth :
    (z x n : ℕ) {c : ℕ} → IsGrowth z → IsGrowth x → accumulate z x n ≡ some c → IsGrowth c × (z ≤ c)
unfolding accumulate
accumulate-IsGrowth z x n z_growth x_growth h = elim (Bool-cases (n % 2 == 0)) [
  | inl even ↦ ground (arith, h, even)
  | inr odd ↦ ray_product-IsGrowth z x z_growth x_growth (rw odd at h)
]

rpow_loop-IsGrowth :
    (fuel z x n : ℕ) {c : ℕ}
    → IsGrowth z
    → IsGrowth x
    → rpow_loop fuel z x n ≡ some c
    → IsGrowth c × (z ≤ c)
unfolding rpow_loop
rpow_loop-IsGrowth zero z x n z_growth x_growth h = cc
rpow_loop-IsGrowth (suc fuel) z x n {c = c} z_growth x_growth h = elim (Bool-cases (n == 0)) [
  | inl done ↦ ground (arith, h, done)
  | inr more ↦
      let (x', x_step, h') = and_then-eq-some (ray_product x x) _ (rw more at h) in
      let (z', z_step, h'') = and_then-eq-some (accumulate z x' n) _ h' in
      let (x_growth', _) = ray_product-IsGrowth x x x_growth x_growth x_step in
      let (z_growth', z_grown) = accumulate-IsGrowth z x' n z_growth x_growth' z_step in
      let (growth, grown) = rpow_loop-IsGrowth fuel z' x' (n / 2) z_growth' x_growth' h'' in
      (growth, omega (arith, z_grown, grown))
]

-- A rate of at least one ray that fits in a u128, compounded over any number of seconds without
-- overflow, is at least one ray and fits in a u128.
pub rpow-IsGrowth : (x n : ℕ) {c : ℕ} → IsGrowth x → rpow x n ≡ some c → IsGrowth c
unfolding rpow
rpow-IsGrowth x n (low, word) h =
    let start : IsGrowth (if n % 2 == 0 then ray else x) = (ground arith, ground arith) in
    let nonzero = ==-false x 0 (λ e. omega (arith, e, low)) in
    (rpow_loop-IsGrowth 65 (if n % 2 == 0 then ray else x) x (n / 2) start (low, word)
      (rw nonzero at h)).0
