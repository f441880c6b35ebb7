-- ===== src/Mtbill/Supply/Identity.antt =====
-- mtbill.rs, `c6_supply_identity`: when the supply identity holds.
use crossfoot.Base.{
  ℕ, ◌+◌, ◌<◌, ◌≡◌, ◌↔◌, refl, arith, true, List, [], ◌∷◌, pos, ◌-ℤ◌, wrap128, half_i128,
  Bool-cases, inl, inr,
}
use crossfoot.Mtbill.{consistent, observed_deviation, is_zero}
use crossfoot.Mtbill.Passing.{verdict_of-nil}
use crossfoot.Mtbill.Supply.{SupplyFlow, signed_difference, all_unclassified, c6_supply_identity}

-- A small difference is exact.
signed_difference-small :
    (a b : ℕ) → a < half_i128 → b < half_i128 → signed_difference a b ≡ (pos a -ℤ pos b)
unfolding signed_difference wrap128 ◌-ℤ◌
signed_difference-small a b h k = ground arith

residual_zero :
    (a b c d : ℕ)
    → a < half_i128
    → b < half_i128
    → c < half_i128
    → d < half_i128
    → (is_zero (wrap128 ((pos a -ℤ pos b) -ℤ (pos c -ℤ pos d))) ≡ true) ↔ (a + d ≡ c + b)
unfolding wrap128 ◌-ℤ◌
residual_zero a b c d ha hb hc hd = (λ h. ground arith, λ h. ground arith)

all_unclassified-nil :
    {C : Type 0} (counterparties : List C)
    → (all_unclassified counterparties ≡ []) ↔ (counterparties ≡ [])
all_unclassified-nil [] = (λ h. refl, λ h. refl)
all_unclassified-nil (c ∷ cs) = (λ h. cc, λ h. cc)

-- With the amounts below 2 ^ 127, the supply check is consistent exactly when the second supply and
-- the burns together are the first supply and the mints together, and no counterparty is left
-- unclassified.
pub c6_supply_identity-balance :
    {C : Type 0} (supply_b0 supply_b1 : ℕ) (flow : SupplyFlow) (counterparties : List C)
    → supply_b0 < half_i128
    → supply_b1 < half_i128
    → flow.mints < half_i128
    → flow.burns < half_i128
    → ((c6_supply_identity supply_b0 supply_b1 flow counterparties).verdict ≡ consistent)
      ↔ ((supply_b1 + flow.burns ≡ supply_b0 + flow.mints) × (counterparties ≡ []))
unfolding c6_supply_identity
c6_supply_identity-balance supply_b0 supply_b1 flow counterparties h0 h1 hm hb =
    let modeled = signed_difference-small flow.mints flow.burns hm hb in
    let observed = signed_difference-small supply_b1 supply_b0 h1 h0 in
    let (balance, unbalance) =
      residual_zero flow.mints flow.burns supply_b1 supply_b0 hm hb h1 h0 in
    let residual =
      wrap128 ((pos flow.mints -ℤ pos flow.burns) -ℤ (pos supply_b1 -ℤ pos supply_b0)) in
    let all = all_unclassified counterparties in
    rw (modeled, observed)
      (elim (Bool-cases (is_zero residual)) [
        | inl zero_residual ↦
            let (clean, pass) = verdict_of-nil observed_deviation (λ e. cc) all in
            let (some_left, none_left) = all_unclassified-nil counterparties in
            rw zero_residual (
              λ h. (omega (arith, balance zero_residual), some_left (clean h)),
              λ (_, h). pass (none_left h),
            )
        | inr broken ↦ rw broken (
          λ h. absurd (cc),
          λ (h, _). let zero_residual = unbalance (omega (arith, h)) in absurd (cc),
        )
      ])
