-- ===== src/Vault/Sky/Accumulator.antt =====
-- sky.rs, `chi_now` and `convert_to_assets_1e18`: the accumulator and the posted value over time.
use native.Mathlib.Nat.{mul-le-mul_right}
use crossfoot.Base.{
  ℕ, ◌-◌, ◌*◌, ◌/◌, ◌≤◌, ◌<◌, ◌≡◌, sym, ◌∙◌, arith, some, ltb, and_then-eq-some, u128_mod,
  Bool-cases, inl, inr,
}
use crossfoot.Wide.Floor.{mul_div_floor-floor}
use crossfoot.Vault.Ray.{ray, rpow}
use crossfoot.Vault.Ray.Growth.{IsGrowth, floor-some, rpow-IsGrowth}
use crossfoot.Vault.Sky.{one_ether, chi_now, convert_to_assets_1e18}

-- With a rate of at least one ray, an accumulator that is computed without overflow is at least the
-- stored one, and it fits in a u128 if the stored one does.
pub chi_now-grows :
    (rate chi rho now : ℕ) {c : ℕ}
    → IsGrowth rate
    → chi < u128_mod
    → chi_now rate chi rho now ≡ some c
    → (chi ≤ c) × (c < u128_mod)
unfolding chi_now
chi_now-grows rate chi rho now {c = c} growth word h = elim (Bool-cases (ltb rho now)) [
  | inr not_yet ↦ ground (arith, h, not_yet)
  | inl elapsed ↦
      let (grown, power, product) = and_then-eq-some (rpow rate (now - rho)) _ (rw elapsed at h) in
      let (low, fits) = rpow-IsGrowth rate (now - rho) growth power in
      let exact = mul_div_floor-floor grown chi ray fits word (omega arith) in
      let (quotient, c_fits) = floor-some (grown * chi) ray (sym exact ∙ product) in
      let bound : ray * chi ≤ grown * chi = mul-le-mul_right chi low in
      (omega (arith, quotient, bound), c_fits)
]

-- The posted value is the floor of 1e18 times the accumulator over a ray, so at such a rate it is
-- never below what the stored accumulator alone would post.
pub convert_to_assets_1e18-grows :
    (rate chi rho now : ℕ) {posted : ℕ}
    → IsGrowth rate
    → chi < u128_mod
    → convert_to_assets_1e18 rate chi rho now ≡ some posted
    → one_ether * chi / ray ≤ posted
unfolding convert_to_assets_1e18
convert_to_assets_1e18-grows rate chi rho now {posted = posted} growth word h =
    let (c, at_now, product) = and_then-eq-some (chi_now rate chi rho now) _ h in
    let (grows, fits) = chi_now-grows rate chi rho now growth word at_now in
    let exact = mul_div_floor-floor one_ether c ray (omega arith) fits (omega arith) in
    let (quotient, _) = floor-some (one_ether * c) ray (sym exact ∙ product) in
    omega (arith, quotient, grows)
