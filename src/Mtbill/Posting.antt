-- ===== src/Mtbill/Posting.antt =====
-- mtbill.rs, `c1_posting_rules`: every round against the rules of its era.
pub mod Rules
use crossfoot.Base.{
  ℕ, Bool, true, false, ◌&&◌, ◌||◌, not, Option, none, some, List, [], ◌∷◌, ◌++◌, length, leb, ltb,
  ◌==◌, if◌then◌else◌, ℤ, pos, ltb_ℤ, saturating_sub, min,
}
use crossfoot.Mtbill.{
  Era, era_for, Round, FeedParams, deviation, CheckResult, check_result, verdict_of,
  observed_deviation, min_round_spacing_seconds,
}

-- One constructor for each rule, with what its entry reports beside the parameters: the era, whether
-- its rules are known, the rounds, and the classification as a launch rebase.
pub data Violation : Type 0 where
  out_of_bounds : Option ℕ → Round → Violation
  too_far :
      (era : Option ℕ) (rules_known : Bool) (previous current : Round) (value : ℤ)
      → (launch_rebase : Bool) → Violation
  not_computable : Option ℕ → Round → Violation
  too_soon : (era : Option ℕ) (rules_known : Bool) (previous current : Round) (gap : ℕ) → Violation

-- What `describe_era` returns: the era's index, the two rules it enforces, and whether it is known.
pub record EraRules : Type 0 where
  pub era : Option ℕ
  pub checks_deviation : Bool
  pub checks_spacing : Bool
  pub rules_known : Bool

abbrev pub rules_of : Option Era → EraRules
rules_of (some era) = record {
  era = some era.index;
  checks_deviation = era.enforces_deviation;
  checks_spacing = era.enforces_spacing;
  rules_known = era.rules_known;
}
rules_of none = record {
  era = none;
  checks_deviation = true;
  checks_spacing = true;
  rules_known = false;
}

-- The detail, less what repeats its parameters and the texts that format its numbers.
pub record Detail : Type 0 where
  pub rounds_checked : ℕ
  pub max_deviation_seen : ℤ
  pub min_spacing_seen : Option ℕ
  pub rules_unknown_rounds : List ℕ

-- What the loops over the rounds have gathered.
pub record Scan : Type 0 where
  pub violations : List Violation
  pub deviation_max_seen : ℤ
  pub spacing_min_seen : Option ℕ
  pub rules_unknown_rounds : List ℕ

abbrev pub max_ℤ : ℤ → ℤ → ℤ
max_ℤ a b = if ltb_ℤ b a then a else b

abbrev pub is_round : Option ℕ → ℕ → Bool
is_round none id = false
is_round (some launch) id = launch == id

-- `map_or(gap, |m| m.min(gap))`
abbrev pub min_seen : Option ℕ → ℕ → ℕ
min_seen none gap = gap
min_seen (some m) gap = min m gap

-- `round_blocks.get` is a function, and `launch_rebase_round` an option.
module _ (params : FeedParams) (eras : List Era) (round_blocks : ℕ → Option ℕ)
    (launch_rebase_round : Option ℕ) where
  unfoldable pub describe_era : ℕ → EraRules
  describe_era round_id = rules_of (era_for eras (round_blocks round_id))

  -- The first loop: the bounds.
  unfoldable pub bound_violations : List Round → List Violation
  unfolding describe_era
  bound_violations [] = []
  bound_violations (round ∷ rounds) =
      let rest = bound_violations rounds in
      if ltb_ℤ round.answer params.min_answer || ltb_ℤ params.max_answer round.answer
      then out_of_bounds (describe_era round.round_id).era round ∷ rest
      else rest

  -- The entry of the deviation rule for a pair.
  unfoldable pub deviation_violations : EraRules → Round → Round → Option ℤ → List Violation
  deviation_violations rules previous current none = not_computable rules.era current ∷ []
  deviation_violations rules previous current (some value) =
      if rules.checks_deviation && ltb_ℤ params.max_answer_deviation value
      then too_far rules.era rules.rules_known previous current value
          (is_round launch_rebase_round current.round_id)
        ∷ []
      else []

  -- The entry of the spacing rule for a pair.
  unfoldable pub spacing_violations : EraRules → Round → Round → ℕ → List Violation
  spacing_violations rules previous current gap =
      if rules.checks_spacing && leb gap min_round_spacing_seconds
      then too_soon rules.era rules.rules_known previous current gap ∷ []
      else []

  abbrev pub deviation_seen : ℤ → Option ℤ → ℤ
  deviation_seen seen none = seen
  deviation_seen seen (some value) = max_ℤ seen value

  -- The body of the loop over the pairs of neighbours.
  unfoldable pub scan_pair : Scan → Round → Round → Scan
  unfolding describe_era deviation_violations spacing_violations saturating_sub
  scan_pair scan previous current =
      let rules = describe_era current.round_id in
      let value = deviation previous.answer current.answer in
      let gap = saturating_sub current.updated_at previous.updated_at in
      record {
        violations =
            (scan.violations ++ deviation_violations rules previous current value)
            ++ spacing_violations rules previous current gap;
        deviation_max_seen = deviation_seen scan.deviation_max_seen value;
        spacing_min_seen = some (min_seen scan.spacing_min_seen gap);
        rules_unknown_rounds =
            if not rules.rules_known
            then scan.rules_unknown_rounds ++ (current.round_id ∷ [])
            else scan.rules_unknown_rounds;
      }

  unfoldable pub scan_pairs : Scan → List Round → Scan
  unfolding scan_pair
  scan_pairs scan [] = scan
  scan_pairs scan (previous ∷ []) = scan
  scan_pairs scan (previous ∷ current ∷ rounds) =
      scan_pairs (scan_pair scan previous current) (current ∷ rounds)

  unfoldable pub c1_posting_rules : List Round → CheckResult Detail Violation
  unfolding bound_violations scan_pairs
  c1_posting_rules rounds =
      let scan =
        scan_pairs
          (record {
            violations = bound_violations rounds;
            deviation_max_seen = pos 0;
            spacing_min_seen = none;
            rules_unknown_rounds = [];
          })
          rounds in
      check_result "C1" "posting-rule replay" (verdict_of observed_deviation scan.violations)
        (record {
          rounds_checked = length rounds;
          max_deviation_seen = scan.deviation_max_seen;
          min_spacing_seen = scan.spacing_min_seen;
          rules_unknown_rounds = scan.rules_unknown_rounds;
        })
        scan.violations
