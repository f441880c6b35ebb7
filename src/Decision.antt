-- ===== src/Decision.antt =====
-- The consumer's decision: cli/src/model/decision.rs. The facts of one feed and their records are here;
-- the rows of the table, the gates of a policy and `decide` have modules of their own. The sentences
-- that go with the reasons are not modelled. An `i64` is an integer whose operations wrap.
pub mod Rows
pub mod Gates
pub mod Decide
pub mod Quiet
pub mod Clear
pub mod Allow
pub mod Strictness
mod Tests
use Prim.Native.String.{String}
use crossfoot.Base.{ℕ, ◌*◌, Bool, Option, none, some, List, ℤ, pos, ◌-ℤ◌, ◌*ℤ◌, wrap64}

pub data Decision : Type 0 where
  allow review : Decision

abbrev pub decision_name : Decision → String
decision_name allow = "ALLOW"
decision_name review = "REVIEW"

pub data Family : Type 0 where
  posted derived : Family

pub record Policy : Type 0 where
  pub window_days : ℕ
  pub stale_after_days : ℕ
  pub max_head_lag_seconds : ℕ
  pub max_result_age_days : ℕ

pub record PolicyGates : Type 0 where
  pub accept_guard_less_feeds : Bool
  pub max_unattributed_rounds : ℕ
  pub max_unchecked_deviation_percent : Option String
  pub max_seconds_since_last_post : Option ℕ
  pub flag_constant_value : Bool
  pub require_poster_keys : Bool
  pub min_poster_keys : Option ℕ
  pub allowed_posters : List String

pub record EligibilityPolicy : Type 0 where
  pub format : String
  pub name : String
  pub description : String
  pub gates : PolicyGates

pub record Head : Type 0 where
  pub deployment : String
  pub number : ℕ
  pub timestamp : ℤ
  pub has_indexing_errors : Bool

pub record Pinned : Type 0 where
  pub number : ℕ
  pub timestamp : ℤ

pub record LatestRound : Type 0 where
  pub round_id : String
  pub path : String
  pub over_bound : Bool
  pub updated_at : Option String

pub record SubgraphFeed : Type 0 where
  pub address : String
  pub family : Family
  pub issuer : String
  pub product : String
  pub registry_key : Option String
  pub bound : Option String
  pub latest_answer : Option String
  pub latest_updated_at : Option ℤ
  pub round_count : ℤ
  pub unchecked_count : ℤ
  pub over_bound_count : ℤ
  pub latest_round : Option LatestRound
  pub recent_answers : List (String × ℤ)

pub record UncheckedRound : Type 0 where
  pub round_id : String
  pub block : ℕ
  pub block_timestamp : Option ℤ
  pub tx : String
  pub selector : Option String
  pub poster : Option String
  pub answer : String
  pub previous_answer : Option String
  pub deviation : Option String
  pub bound_at_post : Option String
  pub over_bound : Bool

pub record UnknownRound : Type 0 where
  pub round_id : String
  pub block : ℕ
  pub tx : String

pub record BoundChangeRow : Type 0 where
  pub old_bound : Option String
  pub new_bound : Option String
  pub old_min_answer : Option String
  pub new_min_answer : Option String
  pub old_max_answer : Option String
  pub new_max_answer : Option String
  pub block : ℕ
  pub tx : String
  pub caller : String

pub record RateChangeRow : Type 0 where
  pub rate_ppm : ℤ
  pub block : ℕ
  pub tx : String

pub record CrossfootRow : Type 0 where
  pub address : String
  pub target : String
  pub product : Option String
  pub family : Option String
  pub verdict : String
  pub posting_path : Option String
  pub liveness : Option String
  pub consumer_action : Option String
  pub nav_recomputation : Option String
  pub headline : Option String
  pub bundle_root : String
  pub result_path : Option String
  pub block : ℕ
  pub guard_kind : Option String
  pub poster_addresses : List String

-- Everything that the table reads for one feed.
pub record FeedInputs : Type 0 where
  pub head : Head
  pub pinned : Pinned
  pub now : ℤ
  pub policy : Policy
  pub feed : SubgraphFeed
  pub row : Option CrossfootRow
  pub unchecked_rounds : List UncheckedRound
  pub unknown_rounds : List UnknownRound
  pub bound_changes : List BoundChangeRow
  pub rate_changes : List RateChangeRow
  pub eligibility : Option EligibilityPolicy

pub record SubgraphEvidence : Type 0 where
  pub latest_round : Option LatestRound
  pub latest_answer : Option String
  pub latest_updated_at : Option ℤ
  pub bound : Option String
  pub round_count : ℤ
  pub unchecked_count : ℤ
  pub over_bound_count : ℤ
  pub head_lag_seconds : ℤ
  pub feed_age_seconds : Option ℤ
  pub result_age_blocks : Option ℤ
  pub unchecked_rounds_in_window : ℕ
  pub over_bound_rounds : List UncheckedRound
  pub unknown_rounds : ℕ
  pub first_unknown_round : Option UnknownRound
  pub bound_changes : List BoundChangeRow
  pub rate_changes_after_window : List RateChangeRow

-- One constructor for each note's text; a policy's note has its name.
pub data Note : Type 0 where
  unverified_selector no_guard aggregated_posts : Note
  policy_note : String → Note

pub record Outcome : Type 0 where
  pub decision : Decision
  pub reason : Option String
  pub reasons : List String
  pub notes : List Note
  pub evidence : SubgraphEvidence

-- `x as i64` of a `u64`, and `a - b` of two `i64`.
abbrev pub as_i64 : ℕ → ℤ
as_i64 n = wrap64 (pos n)

abbrev pub sub_i64 : ℤ → ℤ → ℤ
sub_i64 a b = wrap64 (a -ℤ b)
