-- ===== src/Vault/Susde.antt =====
-- susde.rs: the vesting of the rewards of the staked USDe vault, and its conversion.
pub mod Vesting
pub mod Path
use crossfoot.Base.{
  ℕ, or_zero, ◌+◌, ◌-◌, ◌*◌, Option, none, some, leb, if◌then◌else◌, Result, ok, err, ok_or,
  checked_sub, add128, saturating_sub,
}
use crossfoot.Wide.{mul_div_floor}

abbrev pub one_ether : ℕ
one_ether = 1_000_000_000_000_000_000

-- 8 hours in seconds.
abbrev pub vesting_period : ℕ
vesting_period = 8 * 3600

-- The two messages.
pub data Error : Type 0 where
  unvested_exceeds_balance : ℕ → ℕ → Error
  convert_overflow : Error

unfoldable pub unvested : (vesting_amount last_distribution now : ℕ) → ℕ
unfolding saturating_sub
unvested vesting_amount last_distribution now =
    let dt = saturating_sub now last_distribution in
    if leb vesting_period dt
    then 0
    else (or_zero (mul_div_floor (vesting_period - dt) vesting_amount vesting_period))

unfoldable pub total_assets : ℕ → ℕ → Result Error ℕ
unfolding checked_sub
total_assets balance amount =
    ok_or (unvested_exceeds_balance amount balance) (checked_sub balance amount)

-- The two sums are unchecked `u128` additions.
unfoldable pub convert_to_assets_1e18 : ℕ → ℕ → Result Error ℕ
unfolding add128
convert_to_assets_1e18 assets total_supply =
    ok_or convert_overflow (mul_div_floor one_ether (add128 assets 1) (add128 total_supply 1))
