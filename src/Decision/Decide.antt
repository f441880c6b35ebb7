-- ===== src/Decision/Decide.antt =====
-- decision.rs, `decide`: the table, the policy, and the outcome. `none` is the panic of an `expect`.
use Prim.Native.String.{String}
use crossfoot.Base.{is_empty, Option, none, some, List, [], ◌∷◌, ◌++◌, length, if◌then◌else◌}
use crossfoot.Base.Options.{◌>>=◌}
use crossfoot.Decision.{
  allow, review, Family, posted, derived, EligibilityPolicy, UnknownRound, CrossfootRow, FeedInputs,
  SubgraphEvidence, Note, unverified_selector, no_guard, aggregated_posts, policy_note, Outcome,
}
use crossfoot.Decision.Rows.{head_lag, feed_age, result_age, over_bound, table_rows}
use crossfoot.Decision.Gates.{is_guard_less, is_aggregated, any_unverified, gate_reasons}

-- The reasons of the policy, where there is one and the feed is posted, and its note.
unfoldable pub policy_reasons : FeedInputs → Family → Option EligibilityPolicy → List String
unfolding gate_reasons
policy_reasons inputs posted (some policy) = gate_reasons inputs policy.gates
policy_reasons inputs _ _ = []

abbrev pub policy_notes : Option EligibilityPolicy → List String → List Note
policy_notes none reasons = []
policy_notes (some policy) reasons = if is_empty reasons then [] else policy_note policy.name ∷ []

-- The note that an allowed feed carries: rows 11a and 11b.
unfoldable pub allow_notes : Family → CrossfootRow → List Note
unfolding is_guard_less is_aggregated
allow_notes derived row = []
allow_notes posted row =
    if is_guard_less row
    then no_guard ∷ []
    else (if is_aggregated row then aggregated_posts ∷ [] else [])

abbrev pub first_unknown : List UnknownRound → Option UnknownRound
first_unknown [] = none
first_unknown (r ∷ rs) = some r

unfoldable pub evidence_of : FeedInputs → SubgraphEvidence
unfolding head_lag feed_age result_age over_bound
evidence_of inputs = record {
  latest_round = inputs.feed.latest_round;
  latest_answer = inputs.feed.latest_answer;
  latest_updated_at = inputs.feed.latest_updated_at;
  bound = inputs.feed.bound;
  round_count = inputs.feed.round_count;
  unchecked_count = inputs.feed.unchecked_count;
  over_bound_count = inputs.feed.over_bound_count;
  head_lag_seconds = head_lag inputs;
  feed_age_seconds = feed_age inputs;
  result_age_blocks = result_age inputs;
  unchecked_rounds_in_window = length inputs.unchecked_rounds;
  over_bound_rounds = over_bound inputs.unchecked_rounds;
  unknown_rounds = length inputs.unknown_rounds;
  first_unknown_round = first_unknown inputs.unknown_rounds;
  bound_changes = inputs.bound_changes;
  rate_changes_after_window = inputs.rate_changes;
}

-- Row 11, or the first reason: without reasons the row is expected.
unfoldable pub conclude : FeedInputs → List String → List Note → Option Outcome
unfolding allow_notes evidence_of
conclude inputs (reason ∷ reasons) notes = some (record {
  decision = review;
  reason = some reason;
  reasons = reason ∷ reasons;
  notes = notes;
  evidence = evidence_of inputs;
})
conclude inputs [] notes = do
  row ← inputs.row
  some (record {
    decision = allow;
    reason = none;
    reasons = [];
    notes = notes ++ allow_notes inputs.feed.family row;
    evidence = evidence_of inputs;
  })

unfoldable pub decide : FeedInputs → Option Outcome
unfolding policy_reasons any_unverified conclude table_rows
decide inputs = do
  rows ← table_rows inputs
  gates ← some (policy_reasons inputs inputs.feed.family inputs.eligibility)
  unverified ←
      some (if any_unverified inputs.unchecked_rounds then unverified_selector ∷ [] else [])
  conclude inputs (rows ++ gates) (unverified ++ policy_notes inputs.eligibility gates)
