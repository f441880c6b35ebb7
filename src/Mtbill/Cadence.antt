-- ===== src/Mtbill/Cadence.antt =====
-- mtbill.rs, `c3_cadence` and `c4_monotonicity`: the gaps between rounds, and answers that decrease.
pub mod Bounds
use crossfoot.Base.{
  ℕ, ◌-◌, Bool, Option, none, some, List, [], ◌∷◌, length, ltb, if◌then◌else◌, ℤ, ltb_ℤ, ◌-ℤ◌,
  wrap128, saturating_sub, max, min,
}
use crossfoot.Mtbill.{
  Round, CheckResult, check_result, verdict_of, source_stale, observed_deviation,
  insufficient_window,
}
use crossfoot.Mtbill.Posting.{is_round}

-- A stale interval: its two rounds and its length.
pub record StaleInterval : Type 0 where
  pub from_round : ℕ
  pub to_round : ℕ
  pub gap_seconds : ℕ

-- `updated_at` of a round less that of the round before it.
unfoldable pub gap_between : Round → Round → ℕ
unfolding saturating_sub
gap_between previous current = saturating_sub current.updated_at previous.updated_at

unfoldable pub gaps : List Round → List ℕ
unfolding gap_between
gaps [] = []
gaps (previous ∷ []) = []
gaps (previous ∷ current ∷ rounds) = gap_between previous current ∷ gaps (current ∷ rounds)

unfoldable pub stale_intervals : ℕ → List Round → List StaleInterval
unfolding gap_between
stale_intervals stale_after [] = []
stale_intervals stale_after (previous ∷ []) = []
stale_intervals stale_after (previous ∷ current ∷ rounds) =
    let rest = stale_intervals stale_after (current ∷ rounds) in
    let gap = gap_between previous current in
    if ltb stale_after gap
    then record { from_round = previous.round_id; to_round = current.round_id; gap_seconds = gap }
      ∷ rest
    else rest

abbrev pub first_round : List Round → Option ℕ
first_round [] = none
first_round (round ∷ rounds) = some round.round_id

abbrev pub last_round : List Round → Option ℕ
last_round [] = none
last_round (round ∷ []) = some round.round_id
last_round (round ∷ next ∷ rounds) = last_round (next ∷ rounds)

-- `gaps.iter().max()` and `min()`, of a list that is not empty
abbrev pub largest : List ℕ → ℕ
largest [] = 0
largest (gap ∷ []) = gap
largest (gap ∷ next ∷ rest) = max gap (largest (next ∷ rest))

abbrev pub smallest : List ℕ → ℕ
smallest [] = 0
smallest (gap ∷ []) = gap
smallest (gap ∷ next ∷ rest) = min gap (smallest (next ∷ rest))

-- The detail of the cadence, less the figures in hours; an insufficient window has none.
pub record CadenceDetail : Type 0 where
  pub rounds_in_window : ℕ
  pub first : Option ℕ
  pub last : Option ℕ
  pub largest_gap_seconds : ℕ
  pub smallest_gap_seconds : ℕ
  pub stale_after_seconds : ℕ
  pub gaps_seconds : List ℕ

unfoldable pub c3_cadence : List Round → ℕ → CheckResult (Option CadenceDetail) StaleInterval
unfolding gaps stale_intervals
c3_cadence rounds stale_after =
    let violations = stale_intervals stale_after rounds in
    if ltb (length rounds) 2
    then check_result "C3" "cadence" insufficient_window none []
    else (check_result "C3" "cadence" (verdict_of source_stale violations)
        (some (record {
          rounds_in_window = length rounds;
          first = first_round rounds;
          last = last_round rounds;
          largest_gap_seconds = largest (gaps rounds);
          smallest_gap_seconds = smallest (gaps rounds);
          stale_after_seconds = stale_after;
          gaps_seconds = gaps rounds;
        }))
        violations)

-- A decrease: its two rounds, its size, and whether it is the launch rebase.
pub record Decrease : Type 0 where
  pub previous : Round
  pub current : Round
  pub decrease : ℤ
  pub launch_rebase : Bool

unfoldable pub decreases : Option ℕ → List Round → List Decrease
unfolding ◌-ℤ◌ wrap128
decreases launch_rebase_round [] = []
decreases launch_rebase_round (previous ∷ []) = []
decreases launch_rebase_round (previous ∷ current ∷ rounds) =
    let rest = decreases launch_rebase_round (current ∷ rounds) in
    if ltb_ℤ current.answer previous.answer
    then record {
      previous = previous;
      current = current;
      decrease = wrap128 (previous.answer -ℤ current.answer);
      launch_rebase = is_round launch_rebase_round current.round_id;
    }
      ∷ rest
    else rest

-- The detail of the monotonicity check is the number of rounds; its largest increase is a floating point figure.
unfoldable pub c4_monotonicity : List Round → Option ℕ → CheckResult ℕ Decrease
unfolding decreases
c4_monotonicity rounds launch_rebase_round =
    let violations = decreases launch_rebase_round rounds in
    check_result "C4" "monotonicity and jumps" (verdict_of observed_deviation violations)
      (length rounds) violations
