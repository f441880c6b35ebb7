-- ===== src/Decision/Tests.antt =====
-- Feeds of the source's own tests, and the theorems on them.
use Prim.Native.String.{String}
use crossfoot.Base.{
  arith, ◌≢◌, inr, same_text_iff, ◌≡◌, refl, true, false, Option, none, some, List, [], ◌∷◌, ◌++◌,
  pos, ◌-ℤ◌, wrap64, lower_code, lower_text, same_ignoring_case, add128, mul128,
}
use crossfoot.Decimal.{
  parse_digits, parse_number, parse_u128, parse_fraction, pad_right, parse_or_zero, percent_to_1e8,
  split_point,
}
use crossfoot.Decision.{
  allow, posted, Policy, PolicyGates, EligibilityPolicy, Head, SubgraphFeed, UncheckedRound,
  CrossfootRow, FeedInputs, Outcome,
}
use crossfoot.Decision.Rows.{
  head_lag, feed_age, result_age, indexing_errors, is_lagging, subgraph_stale, no_result,
  over_bound, path_not_attributable, guard_bypassed, bound_changed, is_fresh, not_live,
  not_consistent, posted_rows, family_rows, table_rows,
}
use crossfoot.Decision.Gates.{
  is_unverified_selector, any_unverified, no_rule_gate, path_gap_gate, any_exceeds, deviation_gate,
  silence_gate, constant_gate, poster_gate, gate_reasons,
}
use crossfoot.Decision.Decide.{policy_reasons, evidence_of, conclude, decide}
use crossfoot.Decision.Allow.{decide-IsAllowed}
use crossfoot.Decision.Strictness.{decide-without_policy}

abbrev defaults : Policy
defaults = record {
  window_days = 183;
  stale_after_days = 30;
  max_head_lag_seconds = 900;
  max_result_age_days = 30;
}

abbrev head_block : Head
head_block = record {
  deployment = "QmTest";
  number = 25_884_405;
  timestamp = pos 1_788_289_368;
  has_indexing_errors = false;
}

abbrev posted_feed : SubgraphFeed
posted_feed = record {
  address = "0x0a2a51f2f206447de3e3a80fcf92240244722395";
  family = posted;
  issuer = "Midas";
  product = "mRE7";
  registry_key = some "customFeed";
  bound = some "36000000";
  latest_answer = some "107833620";
  latest_updated_at = some (pos 1_788_282_600);
  round_count = pos 56;
  unchecked_count = pos 1;
  over_bound_count = pos 1;
  latest_round = none;
  recent_answers = ("107833620", pos 1_788_282_600) ∷ ("107600000", pos 1_787_000_000) ∷ [];
}

abbrev consistent_row : CrossfootRow
consistent_row = record {
  address = "0x0a2a51f2f206447dE3E3a80FCf92240244722395";
  target = "midas";
  product = some "mRE7";
  family = some "guarded-setter";
  verdict = "CONSISTENT";
  posting_path = some "GUARDED";
  liveness = some "LIVE";
  consumer_action = some "REVIEW";
  nav_recomputation = some "INPUT_GAP";
  headline = some "56 rounds";
  bundle_root = "11";
  result_path = none;
  block = 25_884_405;
  guard_kind = none;
  poster_addresses = [];
}

-- A post that moved 2.22466613 percent against a bound of 0.36 percent.
abbrev round_36 : UncheckedRound
round_36 = record {
  round_id = "36";
  block = 25_037_959;
  block_timestamp = some (pos 1_778_094_180);
  tx = "0x7579";
  selector = some "0xa4381d1f";
  poster = none;
  answer = "106438116";
  previous_answer = some "108859885";
  deviation = some "222466613";
  bound_at_post = some "36000000";
  over_bound = true;
}

abbrev lenient : PolicyGates
lenient = record {
  accept_guard_less_feeds = true;
  max_unattributed_rounds = 0;
  max_unchecked_deviation_percent = some "1.5";
  max_seconds_since_last_post = none;
  flag_constant_value = false;
  require_poster_keys = false;
  min_poster_keys = none;
  allowed_posters = [];
}

abbrev policy_of_gates : PolicyGates → EligibilityPolicy
policy_of_gates gates = record {
  format = "crossfoot-policy-v1";
  name = "test";
  description = "";
  gates = gates;
}

abbrev inputs_of : Option CrossfootRow → List UncheckedRound → Option EligibilityPolicy → FeedInputs
inputs_of row rounds policy = record {
  head = head_block;
  pinned = record { number = 25_884_405; timestamp = pos 1_788_289_368 };
  now = pos 1_788_289_378;
  policy = defaults;
  feed = posted_feed;
  row = row;
  unchecked_rounds = rounds;
  unknown_rounds = [];
  bound_changes = [];
  rate_changes = [];
  eligibility = policy;
}

-- A quiet feed under a policy that has nothing against it.
abbrev quiet_feed : FeedInputs
quiet_feed = inputs_of (some consistent_row) [] (some (policy_of_gates lenient))

other_path : ◌≢◌ {A = Option String} (some "GUARDED") (some "ADMIN_GUARD_BYPASSED")
other_path e = let same = (same_text_iff "GUARDED" "ADMIN_GUARD_BYPASSED").1 (injected e) in cc
  where
    injected : {s t : String} → ◌≡◌ {A = Option String} (some s) (some t) → s ≡ t
    injected e = cc

decide-IsAllowed_example : (decide-IsAllowed quiet_feed).0.decision ≡ allow
unfolding is_lagging head_lag over_bound is_fresh feed_age ◌-ℤ◌ wrap64 policy_reasons gate_reasons
    no_rule_gate path_gap_gate deviation_gate silence_gate constant_gate poster_gate any_exceeds
    percent_to_1e8 split_point parse_or_zero parse_u128 parse_number parse_digits parse_fraction
    pad_right add128 mul128
decide-IsAllowed_example = (decide-IsAllowed quiet_feed).5.1 (
  (refl, omega arith),
  (
    consistent_row,
    refl,
    (refl, tt, other_path, refl, inr refl, (pos 6_768, refl, omega arith), refl),
  ),
  refl,
)

-- A feed whose round 36 went over its bound and over the policy's limit.
abbrev bypassed_feed : FeedInputs
bypassed_feed = inputs_of (some consistent_row) (round_36 ∷ []) (some (policy_of_gates lenient))

decide-without_policy_example :
    (decide-without_policy bypassed_feed).0.reasons
    ≡ ((decide-without_policy bypassed_feed).1.reasons ++ ("POLICY_DEVIATION" ∷ []))
unfolding policy_reasons gate_reasons no_rule_gate path_gap_gate deviation_gate silence_gate
    constant_gate poster_gate any_exceeds feed_age ◌-ℤ◌ wrap64 percent_to_1e8 split_point
    parse_or_zero parse_u128 parse_number parse_digits parse_fraction pad_right add128 mul128
decide-without_policy_example = (decide-without_policy bypassed_feed).4

abbrev reasons_of : Option Outcome → List String
reasons_of none = []
reasons_of (some o) = o.reasons

bypassed_reasons :
    reasons_of (decide bypassed_feed) ≡ ("ADMIN_GUARD_BYPASSED" ∷ "POLICY_DEVIATION" ∷ [])
unfolding is_lagging head_lag over_bound is_fresh feed_age ◌-ℤ◌ wrap64 policy_reasons gate_reasons
    no_rule_gate path_gap_gate deviation_gate silence_gate constant_gate poster_gate any_exceeds
    percent_to_1e8 split_point parse_or_zero parse_u128 parse_number parse_digits parse_fraction
    pad_right add128 mul128 decide table_rows family_rows posted_rows guard_bypassed not_live
    bound_changed not_consistent path_not_attributable indexing_errors subgraph_stale no_result
    any_unverified is_unverified_selector same_ignoring_case lower_text lower_code conclude
    evidence_of result_age
bypassed_reasons = refl
