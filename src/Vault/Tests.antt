-- ===== src/Vault/Tests.antt =====
-- The vault formulas at concrete states, and the theorems on them.
use Prim.Native.String.{String}
use crossfoot.Base.{
  ℕ, ◌+◌, ◌-◌, ◌*◌, ◌/◌, ◌≤◌, ◌≡◌, min, refl, arith, some, none, List, [], ◌∷◌, ◌++◌, checked_add,
  checked_sub, add128, sub64, add64, try_u64,
}
use crossfoot.Wide.{mul_div_floor, mul_add_div_floor, mul_full, div_256, div_loop}
use crossfoot.Vault.Ray.{ray, rpow, rpow_loop, ray_product, accumulate}
use crossfoot.Vault.Ray.Powers.{Powers, rpow-Powers}
use crossfoot.Vault.Ray.Growth.{IsGrowth}
use crossfoot.Vault.Susde.{unvested, total_assets}
use crossfoot.Vault.Susde.Vesting.{unvested-antitone}
use crossfoot.Vault
use crossfoot.Vault.Sky.{chi_now}
use crossfoot.Vault.Sky.Accumulator.{convert_to_assets_1e18-grows}
use crossfoot.Vault.Usdy.{Range, round_to_8, derive_price, price_at, close_chain_breaks}
use crossfoot.Vault.Usdy.Latest.{price_at-latest}
use crossfoot.Vault.Maple.{accrued_interest, convert_to_assets, loan_manager_aum}
use crossfoot.Vault.Maple.Assets.{fits, loan_manager_aum-sum}

program : Unit {0}
unfolding mul_div_floor mul_add_div_floor mul_full div_256 div_loop rpow rpow_loop ray_product
    accumulate checked_add checked_sub add128 sub64 add64 try_u64 chi_now derive_price price_at
    close_chain_breaks accrued_interest convert_to_assets round_to_8
    crossfoot.Vault.Sky.convert_to_assets_1e18
program = tt

-- A rate of about 4 percent a year.
abbrev rate : ℕ
rate = 1000000001243680656318820312

abbrev chi : ℕ
chi = 1056000000000000000000000000

rate-IsGrowth : IsGrowth rate
rate-IsGrowth = (omega arith, omega arith)

rpow_of_a_day : rpow rate 86400 ≡ some 1000107459782027902551816735
unfolding program
rpow_of_a_day = refl

four_percent : Vault.Sky.bps_of_ray rate ≡ some 400
unfolding program crossfoot.Vault.Sky.bps_of_ray
four_percent = refl

abbrev ranges : List Range
ranges =
    record {
      index = 0;
      start = 1690848000;
      end = 1693526400;
      daily_ir = 1000133680000000000000000000;
      prev_close = 999866337867953811;
    }
    ∷ record {
      index = 1;
      start = 1693526400;
      end = 1696118400;
      daily_ir = 1000133680000000000000000000;
      prev_close = 1004018180000000000;
    }
    ∷ []

first_close : price_at ranges 1693526399 ≡ some 1004018180000000000
unfolding program
first_close = refl

rpow-Powers_example : Powers ray rate 43_200 (rpow rate 86_400)
rpow-Powers_example = rpow-Powers rate 86_400 (omega arith) (omega arith) (omega arith)

unvested-antitone_example :
    (unvested 4000000000000000000000 1787000000 1787014400
      ≤ unvested 4000000000000000000000 1787000000 1787007200)
    × (unvested 4000000000000000000000 1787000000 1787007200 ≤ 4000000000000000000000)
unvested-antitone_example =
    unvested-antitone 4000000000000000000000 1787000000 1787007200 1787014400 (omega arith)
      (omega arith)

chi_after_a_day : chi_now rate chi 1787000000 1787086400 ≡ some 1056113477529821465094718472
unfolding program
chi_after_a_day = refl

posted_after_a_day :
    Vault.Sky.convert_to_assets_1e18 rate chi 1787000000 1787086400 ≡ some 1056113477529821465
unfolding program
posted_after_a_day = refl

convert_to_assets_1e18-grows_example : Vault.Sky.one_ether * chi / ray ≤ 1056113477529821465
convert_to_assets_1e18-grows_example =
    convert_to_assets_1e18-grows rate chi 1787000000 1787086400 rate-IsGrowth (omega arith)
      posted_after_a_day

abbrev second : Range
second = record {
  index = 1;
  start = 1693526400;
  end = 1696118400;
  daily_ir = 1000133680000000000000000000;
  prev_close = 1004018180000000000;
}

abbrev third : Range
third = record second { start = 1696118400; end = 1698796800 }

price_at-latest_example :
    price_at ([] ++ (second ∷ third ∷ [])) 1694000000
    ≡ derive_price second (min 1694000000 (second.end - 1))
price_at-latest_example =
    price_at-latest [] second (third ∷ []) 1694000000 (omega arith) (omega arith) (omega arith)
      (omega arith, tt)

loan_manager_aum-sum_example : loan_manager_aum 2000000 3000 40 ≡ fits (2000000 + 3000 + 40)
loan_manager_aum-sum_example = loan_manager_aum-sum 2000000 3000 40

accrued_at_an_hour : accrued_interest 5000000000000000000000000000 3600 0 ≡ some 18000
unfolding program
accrued_at_an_hour = refl

accrued_at_two_hours : accrued_interest 5000000000000000000000000000 7200 0 ≡ some 36000
unfolding program
accrued_at_two_hours = refl

redeemed : convert_to_assets 500 1100 1000 ≡ some 550
unfolding program
redeemed = refl

usdy_rate : crossfoot.Vault.Usdy.apy_bps 1000096900000000000000000000 ≡ some 360
unfolding program crossfoot.Vault.Usdy.apy_bps
usdy_rate = refl

abbrev same : String → String
same text = text

through_the_delegate :
    crossfoot.Vault.Maple.Path.classify_path same
      (some "0xaa")
      (some "0xbb")
      (some "0xaa")
      "0xbb"
      "0xcc"
    ≡ crossfoot.Vault.Maple.Path.pool_delegate
unfolding crossfoot.Vault.Maple.Path.classify_path
through_the_delegate = refl

without_sender :
    crossfoot.Vault.Susde.Path.classify_path same none (some "0xbb") none
    ≡ crossfoot.Vault.Susde.Path.unattributed
unfolding crossfoot.Vault.Susde.Path.classify_path
without_sender = refl
