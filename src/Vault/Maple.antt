-- ===== src/Vault/Maple.antt =====
-- maple.rs: the interest of the open-term loan manager and the assets of a Maple pool.
pub mod Assets
pub mod Path
use Prim.Native.String.{String}
use crossfoot.Base.{
  ℕ, or_zero, ◌+◌, ◌-◌, ◌*◌, Bool, Option, none, some, List, [], ◌∷◌, map, ◌==◌, if◌then◌else◌,
  and_then, checked_add, checked_sub,
}
use crossfoot.Base.Options.{◌>>=◌}
use crossfoot.Wide.{mul_div_floor}

abbrev pub precision : ℕ
precision = 1_000_000_000_000_000_000_000_000_000

unfoldable pub accrued_interest : (issuance_rate timestamp domain_start : ℕ) → Option ℕ
unfolding checked_sub
accrued_interest issuance_rate timestamp domain_start =
    if issuance_rate == 0
    then some 0
    else and_then (checked_sub timestamp domain_start)
        (λ interval. mul_div_floor issuance_rate interval precision)

unfoldable pub loan_manager_aum : (principal_out accounted_interest accrued : ℕ) → Option ℕ
unfolding checked_add
loan_manager_aum principal_out accounted_interest accrued = do
  sum ← checked_add principal_out accounted_interest
  checked_add sum accrued

-- `try_fold` with `checked_add`
unfoldable pub total_assets : ℕ → List ℕ → Option ℕ
unfolding checked_add
total_assets balance [] = some balance
total_assets balance (aum ∷ aums) =
    and_then (checked_add balance aum) (λ sum. total_assets sum aums)

unfoldable pub convert_to_assets : (shares assets total_supply : ℕ) → Option ℕ
convert_to_assets shares assets total_supply =
    if total_supply == 0 then some shares else (mul_div_floor shares assets total_supply)

-- `aum` is the number that its text parses to; `none` is a failed read or a text that is no `u128`.
pub record Strategy : Type 0 where
  pub address : String
  pub aum : Option ℕ
  pub modeled : Bool

abbrev pub aum_with : ℕ → Strategy → ℕ
aum_with modeled_aum s = if s.modeled then modeled_aum else (or_zero s.aum)

unfoldable pub strategy_aums_with : List Strategy → ℕ → List ℕ
strategy_aums_with strategies modeled_aum = map (aum_with modeled_aum) strategies
