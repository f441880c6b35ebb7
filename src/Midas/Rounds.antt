-- ===== src/Midas/Rounds.antt =====
-- midas.rs, `replay_feed`: the loop over the rounds. `to_lowercase` of the standard library is a
-- parameter.
use Prim.Native.String.{String}
use crossfoot.Base.{
  ℕ, ◌+◌, Bool, true, false, ◌&&◌, not, Option, none, some, List, [], ◌∷◌, ◌++◌, if◌then◌else◌, ℤ,
  pos, same_text, saturating_sub,
}
use crossfoot.Midas.{
  PostPath, safe, safe3, raw, raw3, other, unattributed, is_setter, is_unchecked, AttributedRound,
  BoundSegment, bound_segments, StateAtBlock,
}
use crossfoot.Midas.Feed.{
  unguarded_post, TimelineRound, PostCounts, override_flag, first_post, FeedReplayInput, Tally,
  add_poster, add_sample,
}
use crossfoot.Midas.Guards.{
  Marked, is_external, mark, report, spacing_guard, range_guard, absolute_guard, reference_guard,
  clamp_guard, without_guard,
}
use crossfoot.Midas.Events.{event_guard}
use crossfoot.Midas.Bounded.{bounded_guard}

abbrev pub no_posts : PostCounts
no_posts = record { safe = 0; safe3 = 0; raw = 0; raw3 = 0; failed = 0; unattributed = 0 }

unfoldable pub count_path : PostPath → PostCounts → PostCounts
count_path safe c = record c { safe = c.safe + 1 }
count_path safe3 c = record c { safe3 = c.safe3 + 1 }
count_path raw c = record c { raw = c.raw + 1 }
count_path raw3 c = record c { raw3 = c.raw3 + 1 }
count_path other c = record c { unattributed = c.unattributed + 1 }
count_path unattributed c = record c { unattributed = c.unattributed + 1 }

-- The post is counted once in all and once by its origin.
unfoldable pub count_post : AttributedRound → Tally → Tally
unfolding count_path
count_post round t =
    let path = round.attribution.path in
    let origin = is_external round.attribution.via in
    record t {
      counts = count_path path t.counts;
      external = if origin then count_path path t.external else t.external;
      internal = if origin then t.internal else count_path path t.internal;
    }

abbrev pub row_of : AttributedRound → TimelineRound
row_of round = record {
  round_id = round.event.round_id;
  block = round.event.block;
  timestamp_unix = round.event.timestamp;
  answer = round.event.answer;
  path = if is_setter round.attribution.path then round.attribution.path else unattributed;
  transaction_hash = round.event.transaction_hash;
  deviation_in_force = none;
  bound_in_force = none;
  finding = none;
}

abbrev pub push_row : Marked → Tally
push_row (t, row) = record t { timeline = t.timeline ++ (row ∷ []) }

abbrev pub is_flagged : Option Bool → Bool
is_flagged none = false
is_flagged (some flag) = flag

module _ (input : FeedReplayInput) where
  unfoldable pub note_flag : AttributedRound → Tally → Tally
  note_flag round t =
      if is_flagged round.attribution.flag
      then report input round round override_flag
          (record t { override_flags = t.override_flags + 1 })
      else t

  -- The first round: the guard is skipped when no round exists.
  unfoldable pub first_round : AttributedRound → Marked → Marked
  first_round round (t, row) =
      if is_unchecked round.attribution.path
      then (
        report input round round first_post (record t { unguarded = t.unguarded + 1 }),
        mark unguarded_post row,
      )
      else (t, row)

module _ (input : FeedReplayInput) (segments : List BoundSegment) (first_post_value : ℤ) where
  module _ (previous round : AttributedRound) (state : Option StateAtBlock) where
    -- The guards in the order in which the source tries them.
    unfoldable pub guard_by :
        (min_max : Option (ℤ × ℤ)) (absolute : Bool) (rules : Option (String → Option ℤ))
        (reference : Bool) (band bound_at_b1 : Option ℤ)
        → Marked
        → Marked
    guard_by (some range) absolute rules reference band bound m =
        range_guard input previous round range m
    guard_by none true rules reference band bound m = absolute_guard input previous round state m
    guard_by none false (some rules) reference band bound m =
        event_guard input previous round rules m
    guard_by none false none true band bound m = reference_guard input previous round state m
    guard_by none false none false (some band) bound m = clamp_guard input previous round band m
    guard_by none false none false none none m = without_guard input previous round m
    guard_by none false none false none (some bound) m =
        bounded_guard input segments first_post_value previous round bound state m

    unfoldable pub guarded : Marked → Marked
    unfolding guard_by
    guarded =
        guard_by input.min_max input.absolute_guard input.event_rules input.reference_guard
          input.clamp_band input.bound_at_b1

  unfoldable pub later_round : (previous round : AttributedRound) → Marked → Marked
  unfolding saturating_sub
  later_round previous round m =
      let state = input.states (saturating_sub round.event.block 1) in
      guarded previous round state (spacing_guard input previous round m)

  unfoldable pub judge_round : Option AttributedRound → AttributedRound → Marked → Marked
  judge_round none round m = first_round input round m
  judge_round (some previous) round m = later_round previous round m

module _ (to_lowercase : String → String) where
  abbrev pub note_poster : AttributedRound → Tally → Tally
  note_poster round t =
      let sender = round.attribution.sender in
      if is_setter round.attribution.path && not (same_text sender "")
      then record t { posters = add_poster (to_lowercase sender) t.posters }
      else t

  module _ (input : FeedReplayInput) (segments : List BoundSegment) (first_post_value : ℤ) where
    unfoldable pub replay_round : Option AttributedRound → AttributedRound → Tally → Tally
    replay_round previous round t =
        let noted = note_flag input round (note_poster round (count_post round t)) in
        push_row (judge_round input segments first_post_value previous round (noted, row_of round))

    unfoldable pub replay_rounds : Option AttributedRound → List AttributedRound → Tally → Tally
    replay_rounds previous [] t = t
    replay_rounds previous (round ∷ rounds) t =
        replay_rounds (some round) rounds (replay_round previous round t)

abbrev pub segment_samples : List BoundSegment → List (ℕ × ℤ) → List (ℕ × ℤ)
segment_samples [] samples = samples
segment_samples (segment ∷ segments) samples =
    segment_samples segments
      (add_sample segment.from_block segment.bounds.max_answer_deviation samples)

abbrev pub answer_of_first : List AttributedRound → ℤ
answer_of_first [] = pos 0
answer_of_first (round ∷ rounds) = round.event.answer

abbrev pub no_tally : List (ℕ × ℤ) → Tally
no_tally samples = record {
  counts = no_posts;
  external = no_posts;
  internal = no_posts;
  bypass_external = 0;
  bypass_internal = 0;
  bypass_recent = 0;
  unguarded = 0;
  at_bound = 0;
  clamped = 0;
  override_flags = 0;
  moves_above_threshold = 0;
  classifications = record { scale_resets = 0; from_placeholders = 0; valuation_moves = 0 };
  posters = [];
  bound_samples = samples;
  findings = [];
  timeline = [];
}

unfoldable pub tally_rounds : (String → String) → FeedReplayInput → Tally
tally_rounds to_lowercase input =
    let segments = bound_segments input.bound_groups in
    replay_rounds to_lowercase input segments (answer_of_first input.rounds) none input.rounds
      (no_tally (segment_samples segments []))
