-- ===== src/Mtbill.antt =====
-- The consistency checks of the mTBILL feed: cli/src/model/mtbill.rs. The data and the overall
-- verdict are here; a check has a module for its code and one for its theorems. Texts that format
-- numbers (the summaries, percentages and floating point figures) are not modelled.
pub mod Overall
pub mod Passing
pub mod Deviation
pub mod Posting
pub mod Cadence
pub mod Supply
pub mod Wrapper
mod Tests
use Prim.Native.String.{String}
use crossfoot.Base.{
  ℕ, ◌+◌, ◌-◌, ◌*◌, Bool, true, false, ◌&&◌, ◌||◌, not, Option, none, some, List, [], ◌∷◌, leb,
  ◌==◌, if◌then◌else◌, and_then, ℤ, pos, negsuc, ◌-ℤ◌, ◌*ℤ◌, quot, abs, wrap128,
}

-- 10 ** decimals()
abbrev pub one : ℕ
one = 100_000_000

abbrev pub min_round_spacing_seconds : ℕ
min_round_spacing_seconds = 3600

pub record Era : Type 0 where
  pub index : ℕ
  pub implementation : String
  pub from_block : ℕ
  pub to_block : Option ℕ
  pub enforces_deviation : Bool
  pub enforces_spacing : Bool
  pub rules_known : Bool
  pub source_note : String

-- `is_none_or(|to| block <= to)`
abbrev pub up_to : Option ℕ → ℕ → Bool
up_to none block = true
up_to (some to) block = leb block to

unfoldable pub contains : Era → ℕ → Bool
contains era block = leb era.from_block block && up_to era.to_block block

-- `eras.iter().find(|era| era.contains(block))`
unfoldable pub find_era : List Era → ℕ → Option Era
unfolding contains
find_era [] block = none
find_era (era ∷ eras) block =
    let later = find_era eras block in if contains era block then some era else later

unfoldable pub era_for : List Era → Option ℕ → Option Era
unfolding find_era
era_for eras block = and_then block (find_era eras)

-- `answer` is an `i128`, the other fields are `u64`.
pub record Round : Type 0 where
  pub round_id : ℕ
  pub answer : ℤ
  pub started_at : ℕ
  pub updated_at : ℕ
  pub answered_in_round : ℕ

pub record FeedParams : Type 0 where
  pub max_answer_deviation : ℤ
  pub min_answer : ℤ
  pub max_answer : ℤ

abbrev pub is_zero : ℤ → Bool
is_zero (pos n) = n == 0
is_zero (negsuc n) = false

-- On `i128`, whose difference, products and absolute value wrap. The division of the smallest
-- number by -1, which panics, is wrapped too.
unfoldable pub deviation : ℤ → ℤ → Option ℤ
unfolding ◌-ℤ◌ ◌*ℤ◌ quot wrap128
deviation last_price new_price =
    let price_dif = wrap128 (new_price -ℤ last_price) in
    let scaled = wrap128 (wrap128 (price_dif *ℤ pos one) *ℤ pos 100) in
    if is_zero new_price
    then some (pos (100 * one))
    else (if is_zero last_price
        then none
        else some (wrap128 (abs (wrap128 (quot scaled last_price)))))

pub data CheckVerdict : Type 0 where
  consistent observed_deviation source_stale input_gap insufficient_window informational :
      CheckVerdict

abbrev pub as_str : CheckVerdict → String
as_str consistent = "CONSISTENT"
as_str observed_deviation = "OBSERVED_DEVIATION"
as_str source_stale = "SOURCE_STALE"
as_str input_gap = "INPUT_GAP"
as_str insufficient_window = "INSUFFICIENT_WINDOW"
as_str informational = "INFORMATIONAL"

-- A check's detail and violations are JSON in the source; here each check has types for them.
pub record CheckResult (D V : Type 0) : Type 0 where
  pub id : String
  pub name : String
  pub check_class : String
  pub verdict : CheckVerdict
  pub detail : D
  pub violations : List V

-- `new` with its detail and violations
abbrev pub check_result :
    {D V : Type 0} → String → String → CheckVerdict → D → List V → CheckResult D V
check_result id name verdict detail violations = record {
  id = id;
  name = name;
  check_class = "consistency";
  verdict = verdict;
  detail = detail;
  violations = violations;
}

-- The verdict of a check that fails on any violation.
abbrev pub verdict_of {ℓ} : {V : Type ℓ} → CheckVerdict → List V → CheckVerdict
verdict_of failing [] = consistent
verdict_of failing (v ∷ vs) = failing
