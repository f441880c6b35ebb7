-- ===== src/Midas/Replay.antt =====
-- midas.rs, `replay_feed`: what it does after the loop over the rounds, and its result; and the verdict
-- that run_midas.rs reads off the result.
-- The silences and the bound changes, which are counted where a finding is pushed, are the numbers of
-- those findings.
use Prim.Native.String.{String}
use crossfoot.Base.{
  ℕ, ◌+◌, Bool, false, ◌||◌, not, Option, none, some, List, [], ◌∷◌, ◌++◌, length, ltb,
  if◌then◌else◌, ℤ, pos, ltb_ℤ, same_text, saturating_sub,
}
use crossfoot.Midas.{
  is_setter, SetterTx, ReferenceMove, deviation_over_mean, AttributedRound, Bounds, BoundEventGroup,
  same_bounds, Liveness, PostingPath, FeedVerdict, FeedAction, feed_verdict,
}
use crossfoot.Midas.Feed.{
  Finding, Notice, reference_unchecked, reference_over_bound, notice, quiet, bounds_moved,
  failed_post, unresolved_rounds, round_ids, FeedReplayInput, FeedReplay,
}
use crossfoot.Midas.Guards.{unit_of}
use crossfoot.Midas.Rounds.{tally_rounds}

abbrev pub is_over : ℤ → Option ℤ → Bool
is_over dev none = false
is_over dev (some bound) = ltb_ℤ bound dev

abbrev pub or_still : Option ℤ → ℤ
or_still none = pos 0
or_still (some dev) = dev

module _ (unit : ℤ) (bound_at_b1 : Option ℤ) where
  -- The findings about one move of the reference.
  unfoldable pub move_findings : ReferenceMove → List Finding
  unfolding deviation_over_mean
  move_findings move =
      let dev = or_still (deviation_over_mean move.old move.new unit) in
      if not move.checked
      then reference_unchecked move ∷ []
      else (if is_over dev bound_at_b1 then reference_over_bound move dev bound_at_b1 ∷ [] else [])

  unfoldable pub reference_findings : List ReferenceMove → List Finding
  unfolding move_findings
  reference_findings [] = []
  reference_findings (move ∷ moves) = move_findings move ++ reference_findings moves

unfoldable pub unguarded_moves : List ReferenceMove → ℕ
unguarded_moves [] = 0
unguarded_moves (move ∷ moves) = (if move.checked then 0 else 1) + unguarded_moves moves

abbrev pub notice_findings : List Notice → List Finding
notice_findings [] = []
notice_findings (n ∷ notices) = notice n ∷ notice_findings notices

-- The gaps above the limit, of each pair of consecutive rounds.
unfoldable pub silences_after : ℕ → AttributedRound → List AttributedRound → List Finding
unfolding saturating_sub
silences_after limit previous [] = []
silences_after limit previous (round ∷ rounds) =
    let gap = saturating_sub round.event.timestamp previous.event.timestamp in
    (if ltb limit gap then quiet previous round gap ∷ [] else [])
    ++ silences_after limit round rounds

unfoldable pub silence_findings : Option ℕ → List AttributedRound → List Finding
unfolding silences_after
silence_findings none rounds = []
silence_findings (some limit) [] = []
silence_findings (some limit) (first ∷ rounds) = silences_after limit first rounds

abbrev pub or_previous : Option Bounds → Option Bounds → Option Bounds
or_previous none previous = previous
or_previous (some before) previous = some before

unfoldable pub change_of : Option Bounds → Bounds → BoundEventGroup → List Finding
change_of none after group = []
change_of (some before) after group =
    if same_bounds before after then [] else bounds_moved group before after ∷ []

unfoldable pub bound_findings : Option Bounds → List BoundEventGroup → List Finding
unfolding change_of
bound_findings previous [] = []
bound_findings previous (group ∷ groups) = elim group.after [
  | none ↦ bound_findings previous groups
  | some after ↦
      change_of (or_previous group.before previous) after group
      ++ bound_findings (some after) groups
]

abbrev pub is_poster : String → List String → Bool
is_poster s [] = false
is_poster s (t ∷ ts) = same_text s t || is_poster s ts

abbrev pub failed_findings : (String → String) → List String → List SetterTx → List Finding
failed_findings to_lowercase posters [] = []
failed_findings to_lowercase posters (tx ∷ txs) =
    failed_post tx (is_poster (to_lowercase tx.from) posters)
    ∷ failed_findings to_lowercase posters txs

unfoldable pub count_unattributed : List AttributedRound → ℕ
count_unattributed [] = 0
count_unattributed (round ∷ rounds) =
    (if is_setter round.attribution.path then 0 else 1) + count_unattributed rounds

abbrev pub unresolved_findings : ℕ → List Finding
unresolved_findings count = if ltb 0 count then unresolved_rounds count ∷ [] else []

abbrev pub id_findings : Option String → List Finding
id_findings none = []
id_findings (some note) = round_ids note ∷ []

unfoldable pub replay_feed : (String → String) → FeedReplayInput → FeedReplay
replay_feed to_lowercase input =
    let t = tally_rounds to_lowercase input in
    let silent = silence_findings input.max_silence_seconds input.rounds in
    let changed = bound_findings none input.bound_groups in
    let unattributed = count_unattributed input.rounds in
    record {
      findings =
          t.findings
          ++ (reference_findings (unit_of input) input.bound_at_b1 input.reference_moves
              ++ (notice_findings input.notices
                  ++ (silent
                      ++ (changed
                          ++ (failed_findings to_lowercase t.posters input.failed
                              ++ (unresolved_findings unattributed
                                  ++ id_findings input.round_id_gap))))));
      timeline = t.timeline;
      bound_samples = t.bound_samples;
      posts = record t.counts { failed = t.counts.failed + length input.failed };
      posts_by_origin = record { external = t.external; internal = t.internal };
      bypass_posts_external = t.bypass_external;
      bypass_posts_internal = t.bypass_internal;
      bypass_classifications = t.classifications;
      bypass_posts_recent = t.bypass_recent;
      unguarded_posts = t.unguarded;
      at_bound_posts = t.at_bound;
      clamped_posts = t.clamped;
      reference_moves = length input.reference_moves;
      unguarded_reference_moves = unguarded_moves input.reference_moves;
      override_flags = t.override_flags;
      silences = length silent;
      moves_above_threshold = t.moves_above_threshold;
      bound_changes = length changed;
      unattributed = unattributed;
      poster_addresses = t.posters;
    }

-- The verdict that `feed_report` of run_midas.rs gives a bounded or unguarded feed.
unfoldable pub judge_feed :
    FeedReplay
    → Liveness
    → (is_bounded is_aggregated : Bool) → FeedVerdict × PostingPath × FeedAction
judge_feed replay liveness is_bounded is_aggregated =
    feed_verdict false (replay.bypass_posts_external + replay.bypass_posts_internal)
      replay.unattributed liveness is_bounded is_aggregated
