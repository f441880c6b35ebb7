-- ===== src/Midas/Tests.antt =====
-- Bypasses on each side of the rule that tells a change of scale from a move of the value, and two
-- feeds replayed whole.
use Prim.Native.String.{String}
use crossfoot.Base.{
  ℕ, ◌+◌, ◌*◌, ◌≡◌, ◌↔◌, refl, true, false, Option, none, some, List, [], ◌∷◌, ℤ, pos, ◌-ℤ◌, ◌*ℤ◌,
  quot, wrap128, map, All, saturating_sub, same_text, if◌then◌else◌,
}
use crossfoot.Mtbill.{deviation}
use crossfoot.Midas.{
  feed_verdict, PostPath, safe, raw, Via, external, trace, AttributedRound, StateAtBlock,
  classify_bypass, dwarfs, scale_reset, valuation_move, is_unchecked, is_setter, live, allow,
  bound_segments, era_for, implied_bounds,
}
use crossfoot.Midas.Feed.{
  FeedReplayInput, guard_bypass, guard_inconsistent, unguarded_post, guard_at_bound, guard_clamped,
  override_flag_set,
}
use crossfoot.Midas.Guards.{spacing_guard}
use crossfoot.Midas.Events.{
  event_guard, broken_rules, scaled_bps, bps, strays, reference_move, as_u64,
}
use crossfoot.Midas.Bounded.{check_history, judge_bound, state_guard, bounded_guard}
use crossfoot.Midas.Rounds.{
  count_post, note_flag, first_round, guarded, later_round, judge_round, replay_round,
  replay_rounds, tally_rounds,
}
use crossfoot.Midas.Replay.{
  reference_findings, silence_findings, bound_findings, count_unattributed, replay_feed, judge_feed,
}
use crossfoot.Midas.Agreement.{reports}
use crossfoot.Midas.Tallies.{notices_of, replay_feed-counts}
use crossfoot.Midas.Timeline.{
  row_key, round_key, bypass_rows, replay_feed-timeline, replay_feed-bypass_rows,
}
use crossfoot.Midas.Posts.{posted, Splits, replay_feed-posts}
use crossfoot.Midas.Rounds.{no_posts, answer_of_first}
use crossfoot.Midas.Paths.{Adds, any_origin, external_post, internal_post}
use crossfoot.Midas.Marks.{MarksAll}
use crossfoot.Midas.OverBound.{IsBounded}
use crossfoot.Midas.Verdict.{NoneBypasses, replay_feed-NoneBypasses, judge_feed-allow}

reset : classify_bypass (pos 1_000) (pos 100) (pos 7) (pos 8) ≡ scale_reset
unfolding classify_bypass dwarfs ◌*ℤ◌ wrap128
reset = refl

moved : classify_bypass (pos 999) (pos 100) (pos 7) (pos 8) ≡ valuation_move
unfolding classify_bypass dwarfs ◌*ℤ◌ wrap128
moved = refl

abbrev posted_round : ℕ → ℤ → ℕ → PostPath → Via → AttributedRound
posted_round id answer block path via = record {
  event = record {
    round_id = id;
    answer = answer;
    timestamp = 1_700_000_000 + id * 86_400;
    block = block;
    log_index = 0;
    transaction_hash = "0x1";
    fields = λ name. none;
    poster = none;
  };
  attribution = record {
    via = via;
    path = path;
    selector = "0xa4381d1f";
    value = some answer;
    flag = none;
    sender = "0xAa";
    safe_chain = [];
    batch_index = none;
  };
}

abbrev state_with : ℤ → ℕ → Option StateAtBlock
state_with bound block =
    some (record { block = block; bound = bound; last_round_id = 1; last_answer = pos 100_000_000 })

-- A guarded post, and an unchecked post that deviates by 0.1 percent, under a bound of 0.05 percent
-- at the block before it.
abbrev two_rounds : List AttributedRound
two_rounds =
    posted_round 1 (pos 100_000_000) 100 safe external
    ∷ posted_round 2 (pos 100_100_000) 200 raw trace
    ∷ []

abbrev feed_of : ℤ → List AttributedRound → FeedReplayInput
feed_of bound rounds = record {
  decimals = 8;
  bound_at_b1 = some (pos 200_000_000);
  spacing_seconds = some 3_600;
  reference_guard = false;
  reference_moves = [];
  absolute_guard = false;
  max_silence_seconds = none;
  min_max = none;
  threshold = none;
  notices = [];
  event_rules = none;
  clamp_band = none;
  rounds = rounds;
  failed = [];
  states = state_with bound;
  bound_groups = [];
  eras = [];
  b1_timestamp = 1_800_000_000;
  recent_seconds = 183 * 86_400;
  round_id_gap = none;
}

abbrev tight : FeedReplayInput
tight = feed_of (pos 5_000_000) two_rounds

abbrev same : String → String
same s = s

tight-IsBounded : IsBounded tight
tight-IsBounded = record {
  bound = pos 200_000_000;
  bounded = refl;
  unranged = refl;
  uncapped = refl;
  unruled = refl;
  unreferred = refl;
  unclamped = refl;
}

tight_bypass : (replay_feed same tight).bypass_posts_internal ≡ 1
unfolding replay_feed tally_rounds replay_rounds replay_round count_post note_flag judge_round
    later_round spacing_guard guarded bounded_guard state_guard check_history judge_bound
    bound_segments implied_bounds era_for deviation classify_bypass saturating_sub ◌-ℤ◌ ◌*ℤ◌ quot
    wrap128 first_round
tight_bypass = refl

-- The same post on the checked path breaks the bound: the finding says so, and the feed is allowed.
abbrev checked_over : FeedReplayInput
checked_over =
    record (feed_of (pos 5_000_000) (
      posted_round 1 (pos 100_000_000) 100 safe external
      ∷ posted_round 2 (pos 150_000_000) 200 safe external
      ∷ [])) { bound_at_b1 = some (pos 5_000_000) }

checked_over_allowed :
    (reports guard_inconsistent (replay_feed same checked_over).findings ≡ 1)
    × ((judge_feed (replay_feed same checked_over) live true false).2 ≡ allow)
unfolding replay_feed tally_rounds replay_rounds replay_round count_post note_flag judge_round
    later_round spacing_guard guarded bounded_guard state_guard check_history judge_bound
    bound_segments implied_bounds era_for deviation classify_bypass saturating_sub ◌-ℤ◌ ◌*ℤ◌ quot
    wrap128 first_round judge_feed reports reference_findings silence_findings bound_findings
    count_unattributed feed_verdict
checked_over_allowed = (refl, refl)

-- The same posts under a wide bound.
wide_unguarded : (replay_feed same (feed_of (pos 200_000_000) two_rounds)).unguarded_posts ≡ 1
unfolding replay_feed tally_rounds replay_rounds replay_round count_post note_flag judge_round
    later_round spacing_guard guarded bounded_guard state_guard check_history judge_bound
    bound_segments implied_bounds era_for deviation classify_bypass saturating_sub ◌-ℤ◌ ◌*ℤ◌ quot
    wrap128 first_round
wide_unguarded = refl

-- Under event rules the same post moves 10 basis points where 1 is allowed.
abbrev one_bps : String → Option ℤ
one_bps name = if same_text name "max_move_bps" then some (pos 1) else none

abbrev by_events : FeedReplayInput
by_events = record tight { event_rules = some one_bps; b1_timestamp = 1_700_172_800 }

-- The bypass is counted, and neither its class nor its age.
bypass_by_events :
    ((replay_feed same by_events).bypass_posts_internal ≡ 1)
    × ((replay_feed same by_events).bypass_posts_recent ≡ 0)
    × ((replay_feed same by_events).bypass_classifications.valuation_moves ≡ 0)
unfolding replay_feed tally_rounds replay_rounds replay_round count_post note_flag judge_round
    later_round spacing_guard guarded event_guard broken_rules scaled_bps bound_segments era_for
    saturating_sub ◌-ℤ◌ ◌*ℤ◌ quot wrap128 first_round bps strays reference_move as_u64
bypass_by_events = (refl, refl, refl)

replay_feed-counts_example :
    (reports guard_bypass (replay_feed same tight).findings
      ≡ (replay_feed same tight).bypass_posts_external
        + (replay_feed same tight).bypass_posts_internal
        + notices_of guard_bypass [])
    × (reports unguarded_post (replay_feed same tight).findings
        ≡ (replay_feed same tight).unguarded_posts + notices_of unguarded_post [])
    × (reports guard_at_bound (replay_feed same tight).findings
        ≡ (replay_feed same tight).at_bound_posts + notices_of guard_at_bound [])
    × (reports guard_clamped (replay_feed same tight).findings
        ≡ (replay_feed same tight).clamped_posts + notices_of guard_clamped [])
    × (reports override_flag_set (replay_feed same tight).findings
        ≡ (replay_feed same tight).override_flags + notices_of override_flag_set [])
replay_feed-counts_example = replay_feed-counts same tight

replay_feed-timeline_example :
    map row_key (replay_feed same tight).timeline ≡ map round_key two_rounds
replay_feed-timeline_example = replay_feed-timeline same tight

replay_feed-bypass_rows_example :
    ((replay_feed same tight).bypass_posts_external + (replay_feed same tight).bypass_posts_internal
      ≡ bypass_rows (replay_feed same tight).timeline)
    × All
        (λ row. row.finding ≡ some guard_bypass → is_unchecked row.path ≡ true)
        (replay_feed same tight).timeline
replay_feed-bypass_rows_example = replay_feed-bypass_rows same tight

replay_feed-posts_example :
    (posted (replay_feed same tight).posts ≡ 2)
    × Splits
        (replay_feed same tight).posts
        (replay_feed same tight).posts_by_origin.external
        (replay_feed same tight).posts_by_origin.internal
    × ((replay_feed same tight).posts.unattributed ≡ (replay_feed same tight).unattributed)
    × ((replay_feed same tight).posts.failed ≡ 0)
    × Adds any_origin two_rounds no_posts (replay_feed same tight).posts
    × Adds external_post two_rounds no_posts (replay_feed same tight).posts_by_origin.external
    × Adds internal_post two_rounds no_posts (replay_feed same tight).posts_by_origin.internal
replay_feed-posts_example = replay_feed-posts same tight

replay_feed-NoneBypasses_example :
    ((replay_feed same tight).bypass_posts_external + (replay_feed same tight).bypass_posts_internal
      ≡ 0)
    ↔ NoneBypasses tight two_rounds
replay_feed-NoneBypasses_example = replay_feed-NoneBypasses same tight tight-IsBounded

judge_feed-allow_example :
    (((judge_feed (replay_feed same tight) live true false).2 ≡ allow) ↔ (
      NoneBypasses tight two_rounds
      × All (λ round. is_setter round.attribution.path ≡ true) two_rounds
      × (live ≡ live)))
    × MarksAll tight
        (bound_segments [])
        (answer_of_first two_rounds)
        tight-IsBounded.bound
        two_rounds
        (replay_feed same tight).timeline
judge_feed-allow_example = judge_feed-allow same tight live false tight-IsBounded
