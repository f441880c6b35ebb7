-- ===== src/Vault/Sky.antt =====
-- sky.rs: the accumulator of the Sky savings vaults, and the contracts each vault reads.
pub mod Accumulator
use Prim.Native.String.{String}
use crossfoot.Base.{
  ℕ, ◌-◌, ◌*◌, ◌/◌, Option, some, ltb, if◌then◌else◌, and_then, checked_sub, try_u64, List, [], ◌∷◌,
}
use crossfoot.Base.Options.{◌>>=◌}
use crossfoot.Wide.{mul_div_floor, mul_add_div_floor}
use crossfoot.Vault.Ray.{ray, rpow}

abbrev pub one_ether : ℕ
one_ether = 1_000_000_000_000_000_000

abbrev pub seconds_per_year : ℕ
seconds_per_year = 365 * 86_400

-- `rate` and `chi` are `u128`, the two times `u64`.
unfoldable pub chi_now : (rate chi rho now : ℕ) → Option ℕ
chi_now rate chi rho now =
    if ltb rho now
    then and_then (rpow rate (now - rho)) (λ grown. mul_div_floor grown chi ray)
    else (some chi)

unfoldable pub convert_to_assets_1e18 : (rate chi rho now : ℕ) → Option ℕ
unfolding chi_now
convert_to_assets_1e18 rate chi rho now =
    and_then (chi_now rate chi rho now) (λ c. mul_div_floor one_ether c ray)

unfoldable pub bps_of_ray : ℕ → Option ℕ
unfolding checked_sub try_u64
bps_of_ray rate = do
  yearly ← rpow rate seconds_per_year
  excess ← checked_sub yearly ray
  bps ← mul_add_div_floor excess 10_000 (ray / 2) ray
  try_u64 bps

pub data Vault : Type 0 where
  susds sdai stusds : Vault

abbrev pub all_vaults : List Vault
all_vaults = susds ∷ sdai ∷ stusds ∷ []

-- The contracts that the getters name; a constant of the source is its name.
pub data Contract : Type 0 where
  susds_token sdai_token stusds_token pot spbeam stusds_rate_setter : Contract

unfoldable pub token : Vault → Contract
token susds = susds_token
token sdai = sdai_token
token stusds = stusds_token

unfoldable pub accumulator : Vault → Contract
accumulator susds = susds_token
accumulator sdai = pot
accumulator stusds = stusds_token

unfoldable pub rate_name : Vault → String
rate_name susds = "ssr"
rate_name sdai = "dsr"
rate_name stusds = "str"

unfoldable pub setter : Vault → Contract × String
setter susds = (spbeam, "SSR")
setter sdai = (spbeam, "DSR")
setter stusds = (stusds_rate_setter, "str")
