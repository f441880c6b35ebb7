-- ===== src/Mtbill/Tests.antt =====
-- A short feed with its eras, and the theorems on it.
use Prim.Native.String.{String}
use crossfoot.Base.{
  ℕ, ◌+◌, ◌-◌, ◌*◌, ◌/◌, max, min, ◌≡◌, ◌↔◌, refl, arith, true, Option, none, some, List, [], ◌∷◌,
  All, pos, ◌-ℤ◌, ◌*ℤ◌, quot, wrap128,
}
use crossfoot.Mtbill.{Era, Round, FeedParams, deviation, consistent, informational}
use crossfoot.Mtbill.Overall.{Check}
use crossfoot.Mtbill.Deviation.{deviation-exact}
use crossfoot.Mtbill.Posting.{c1_posting_rules}
use crossfoot.Mtbill.Posting.Rules.{IsWithin, IsSafeSeries, c1_posting_rules-IsSafeSeries}
use crossfoot.Mtbill.Supply.{SupplyFlow, c6_supply_identity}
use crossfoot.Mtbill.Supply.Identity.{c6_supply_identity-balance}
use crossfoot.Mtbill.Wrapper.{expected_base18, c7_wrapper}
use crossfoot.Mtbill.Wrapper.Scaling.{IsConsistent, IsReturned, IsPointed, c7_wrapper-IsReturned}

program : Unit {0}
unfolding deviation ◌-ℤ◌ ◌*ℤ◌ quot wrap128
program = tt

falling : deviation (pos 105_000_000) (pos 104_900_000) ≡ some (pos 9_523_809)
unfolding program
falling = refl

abbrev checks : List Check
checks =
    record { id = "C1"; verdict = consistent } ∷ record { id = "C8"; verdict = informational } ∷ []

abbrev rounds : List Round
rounds =
    record {
      round_id = 1;
      answer = pos 100_000_000;
      started_at = 1_700_000_000;
      updated_at = 1_700_000_000;
      answered_in_round = 1;
    }
    ∷ record {
      round_id = 2;
      answer = pos 100_010_000;
      started_at = 1_700_086_400;
      updated_at = 1_700_086_400;
      answered_in_round = 2;
    }
    ∷ []

abbrev params : FeedParams
params = record {
  max_answer_deviation = pos 5_000_000;
  min_answer = pos 10_000_000;
  max_answer = pos 100_000_000_000;
}

abbrev eras : List Era
eras =
    record {
      index = 0;
      implementation = "0x00";
      from_block = 1;
      to_block = none;
      enforces_deviation = true;
      enforces_spacing = true;
      rules_known = true;
      source_note = "";
    }
    ∷ []

abbrev block_of : ℕ → Option ℕ
block_of id = some (100 + id)

abbrev flow : SupplyFlow
flow = record { mints = 700; burns = 200; mint_count = 2; burn_count = 1 }

abbrev same : String → String
same text = text

deviation-exact_example :
    deviation (pos 105_000_000) (pos 104_900_000)
    ≡ some (
        pos (
          (max 105_000_000 104_900_000 - min 105_000_000 104_900_000)
          * 10_000_000_000
          / 105_000_000))
deviation-exact_example =
    deviation-exact 105_000_000 104_900_000 (omega arith) (omega arith) (omega arith) (omega arith)

c1_posting_rules-IsSafeSeries_example :
    ((c1_posting_rules params eras block_of none rounds).verdict ≡ consistent) ↔ (
      All (IsWithin params eras block_of none) rounds
      × IsSafeSeries params eras block_of none rounds)
c1_posting_rules-IsSafeSeries_example =
    c1_posting_rules-IsSafeSeries params eras block_of none rounds

c6_supply_identity-balance_example :
    (c6_supply_identity {C = ℕ} 1000 1500 flow []).verdict ≡ consistent
c6_supply_identity-balance_example =
    (c6_supply_identity-balance 1000 1500 flow [] (omega arith) (omega arith) (omega arith)
        (omega arith)).1
      (refl, refl)

c7_wrapper-IsReturned_example :
    IsConsistent same
      (c7_wrapper same
        (some 1_050_000_000_000_000_000)
        (pos 105_000_000)
        8
        (some "0xab")
        "0xab"
        none)
      (IsReturned same (some 1_050_000_000_000_000_000) (pos 105_000_000) 8
        × IsPointed same (some "0xab") "0xab")
c7_wrapper-IsReturned_example =
    c7_wrapper-IsReturned same (some 1_050_000_000_000_000_000) (pos 105_000_000) 8 (some "0xab")
      "0xab" none (omega arith, omega arith)

-- At 146 decimals the power wraps to 0 and the division panics.
many_decimals : expected_base18 (pos 1) 146 ≡ none
unfolding expected_base18
many_decimals = refl
