-- ===== src/Mtbill/Supply.antt =====
-- mtbill.rs, `c6_supply_identity`: the supply against the mints and burns of the window.
pub mod Identity
use crossfoot.Base.{ℕ, Bool, List, [], ◌∷◌, ◌++◌, if◌then◌else◌, ℤ, pos, ◌-ℤ◌, wrap128}
use crossfoot.Mtbill.{CheckResult, check_result, verdict_of, observed_deviation, is_zero}

pub record SupplyFlow : Type 0 where
  pub mints : ℕ
  pub burns : ℕ
  pub mint_count : ℕ
  pub burn_count : ℕ

-- A broken identity, with its figures, or a counterparty that the caller could not classify.
pub data SupplyViolation (C : Type 0) : Type 0 where
  identity_broken : (observed_delta modeled_delta residual : ℤ) → SupplyViolation C
  unclassified : C → SupplyViolation C

pub record SupplyDetail : Type 0 where
  pub total_supply_b0 : ℕ
  pub total_supply_b1 : ℕ
  pub observed_delta : ℤ
  pub flow : SupplyFlow
  pub modeled_delta : ℤ
  pub residual : ℤ

abbrev pub all_unclassified : {C : Type 0} → List C → List (SupplyViolation C)
all_unclassified [] = []
all_unclassified (c ∷ cs) = unclassified c ∷ all_unclassified cs

-- `a as i128 - b as i128`
unfoldable pub signed_difference : ℕ → ℕ → ℤ
unfolding ◌-ℤ◌ wrap128
signed_difference a b = wrap128 (wrap128 (pos a) -ℤ wrap128 (pos b))

unfoldable pub c6_supply_identity :
    {C : Type 0} (supply_b0 supply_b1 : ℕ) (flow : SupplyFlow) (counterparties : List C)
    → CheckResult SupplyDetail (SupplyViolation C)
unfolding signed_difference ◌-ℤ◌ wrap128
c6_supply_identity supply_b0 supply_b1 flow counterparties =
    let observed_delta = signed_difference supply_b1 supply_b0 in
    let modeled_delta = signed_difference flow.mints flow.burns in
    let residual = wrap128 (modeled_delta -ℤ observed_delta) in
    let violations =
      (if is_zero residual then [] else identity_broken observed_delta modeled_delta residual ∷ [])
      ++ all_unclassified counterparties in
    check_result "C6" "supply-flow identity" (verdict_of observed_deviation violations)
      (record {
        total_supply_b0 = supply_b0;
        total_supply_b1 = supply_b1;
        observed_delta = observed_delta;
        flow = flow;
        modeled_delta = modeled_delta;
        residual = residual;
      })
      violations
