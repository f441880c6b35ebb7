-- ===== src/Midas/Timeline.antt =====
-- midas.rs, `replay_feed`: the rows of the timeline against the rounds, and the bypasses among them.
use Prim.Native.String.{String}
use mathlib.Core.List.{append_assoc, append-nil}
use crossfoot.Base.{
  ℕ, ◌+◌, ◌≡◌, ◌∙◌, sym, ap, refl, arith, Bool, true, false, Option, none, some, List, [], ◌∷◌,
  ◌++◌, ℤ, Bool-cases, inl, inr, if◌then◌else◌, map, All,
}
use crossfoot.Midas.{
  AttributedRound, BoundSegment, bound_segments, PostPath, unattributed, is_unchecked, is_setter,
}
use crossfoot.Midas.Feed.{FeedReplayInput, Tally, TimelineRound, guard_bypass}
use crossfoot.Midas.Guards.{Marked}
use crossfoot.Midas.Rounds.{
  count_post, note_poster, note_flag, first_round, later_round, judge_round, replay_round,
  replay_rounds, tally_rounds, row_of, answer_of_first, no_tally, segment_samples,
}
use crossfoot.Midas.Replay.{replay_feed}
use crossfoot.Midas.Agreement.{one_if}
use crossfoot.Midas.Frame.{Rules, Rules-trans, spacing_guard-Rules, guarded-Rules}

abbrev pub may_bypass : Option AttributedRound → AttributedRound → Bool
may_bypass none round = false
may_bypass (some previous) round = is_unchecked round.attribution.path

-- The rows that are marked as bypasses.
pub bypass_rows : List TimelineRound → ℕ
bypass_rows [] = 0
bypass_rows (row ∷ rows) = one_if guard_bypass row.finding + bypass_rows rows

bypass_rows-append :
    (xs ys : List TimelineRound) → bypass_rows (xs ++ ys) ≡ bypass_rows xs + bypass_rows ys
unfolding bypass_rows
bypass_rows-append [] ys = omega arith
bypass_rows-append (x ∷ xs) ys = omega (arith, bypass_rows-append xs ys)

-- What a row says of the round: its number, its block, its answer and its path.
abbrev pub row_key : TimelineRound → ℕ × ℕ × ℤ × PostPath
row_key row = (row.round_id, row.block, row.answer, row.path)

abbrev pub round_key : AttributedRound → ℕ × ℕ × ℤ × PostPath
round_key round = (
  round.event.round_id,
  round.event.block,
  round.event.answer,
  if is_setter round.attribution.path then round.attribution.path else unattributed,
)

unchecked_path :
    (path : PostPath)
    → is_unchecked path ≡ true
    → is_unchecked (if is_setter path then path else unattributed) ≡ true
unchecked_path path h = ground arith

module _ (to_lowercase : String → String) where
  abbrev pub noted : AttributedRound → Tally → Tally
  noted round t = note_poster to_lowercase round (count_post round t)

  noted-timeline : (round : AttributedRound) (t : Tally) → (noted round t).timeline ≡ t.timeline
  unfolding count_post
  noted-timeline round t = grind arith

  pub noted_bypasses :
      (round : AttributedRound) (t : Tally)
      → (noted round t).bypass_external + (noted round t).bypass_internal
        ≡ t.bypass_external + t.bypass_internal
  unfolding count_post
  noted_bypasses round t = grind arith

module _ (input : FeedReplayInput) (segments : List BoundSegment) (first_post_value : ℤ) where
  pub judge_round-Rules :
      (previous : Option AttributedRound) (round : AttributedRound) (m : Marked)
      → one_if guard_bypass m.1.finding ≡ 0
      → Rules
          (may_bypass previous round)
          m
          (judge_round input segments first_post_value previous round m)
  unfolding judge_round later_round first_round
  judge_round-Rules none round m h = grind arith
  judge_round-Rules (some previous) round m h =
      let (kept, plain) = spacing_guard-Rules input previous round m h in
      Rules-trans kept (guarded-Rules input previous round segments first_post_value _ _ plain)

  pub note_flag-Rules :
      (round : AttributedRound) (t : Tally)
      → Rules false (t, row_of round) (note_flag input round t, row_of round)
  unfolding note_flag
  note_flag-Rules round t = grind arith

  module _ (to_lowercase : String → String) where
    -- A round adds its row, which is marked as a bypass exactly when one is counted.
    record Adds (previous : Option AttributedRound) (round : AttributedRound) (t t' : Tally)
        : Type 0 where
      row : TimelineRound
      timeline : t'.timeline ≡ t.timeline ++ (row ∷ [])
      key : row_key row ≡ round_key round
      bypasses :
          t'.bypass_external + t'.bypass_internal
          ≡ t.bypass_external + t.bypass_internal + one_if guard_bypass row.finding
      checked : may_bypass previous round ≡ false → one_if guard_bypass row.finding ≡ 0

    abbrev pub judged_row : Option AttributedRound → AttributedRound → Tally → TimelineRound
    judged_row previous round t =
        (judge_round input segments first_post_value previous round
          (note_flag input round (noted to_lowercase round t), row_of round)).1

    pub replay_round-timeline :
        (previous : Option AttributedRound) (round : AttributedRound) (t : Tally)
        → (replay_round to_lowercase input segments first_post_value previous round t).timeline
          ≡ t.timeline ++ (judged_row previous round t ∷ [])
    unfolding replay_round
    replay_round-timeline previous round t =
        let flagged = note_flag-Rules round (noted to_lowercase round t) in
        let judged = Rules-trans flagged (judge_round-Rules previous round _ refl) in
        ap (λ (rows : List TimelineRound). rows ++ (judged_row previous round t ∷ []))
          (judged.timeline ∙ noted-timeline to_lowercase round t)

    replay_round-Adds :
        (previous : Option AttributedRound) (round : AttributedRound) (t : Tally)
        → Adds previous round t
            (replay_round to_lowercase input segments first_post_value previous round t)
    unfolding replay_round
    replay_round-Adds previous round t =
        let flagged = note_flag-Rules round (noted to_lowercase round t) in
        let judged = Rules-trans flagged (judge_round-Rules previous round _ refl) in
        record {
          row = judged_row previous round t;
          timeline = replay_round-timeline previous round t;
          key = λ i. (judged.round_id i, judged.block i, judged.answer i, judged.path i);
          bypasses = omega (arith, judged.bypasses, noted_bypasses to_lowercase round t);
          checked = judged.checked;
        }

    -- The loop adds rows that match the rounds, and counts the bypasses among them.
    record Extends (rounds : List AttributedRound) (t t' : Tally) : Type 0 where
      rows : List TimelineRound
      timeline : t'.timeline ≡ t.timeline ++ rows
      keys : map row_key rows ≡ map round_key rounds
      bypasses :
          t'.bypass_external + t'.bypass_internal
          ≡ t.bypass_external + t.bypass_internal + bypass_rows rows
      checked : All (λ row. row.finding ≡ some guard_bypass → is_unchecked row.path ≡ true) rows

    may_bypass-path :
        (previous : Option AttributedRound) (round : AttributedRound) (t t' : Tally)
        (added : Adds previous round t t')
        → added.row.finding ≡ some guard_bypass
        → is_unchecked added.row.path ≡ true
    may_bypass-path none round t t' added h = absurd (ground (arith, added.checked refl))
    may_bypass-path (some previous) round t t' added h =
        elim (Bool-cases (is_unchecked round.attribution.path)) [
          | inl unchecked ↦
              rw (ap (λ (key : ℕ × ℕ × ℤ × PostPath). key.3) added.key) (unchecked_path _ unchecked)
          | inr checked ↦ absurd (ground (arith, added.checked checked))
        ]

    replay_rounds-Extends :
        (previous : Option AttributedRound) (rounds : List AttributedRound) (t : Tally)
        → Extends rounds t
            (replay_rounds to_lowercase input segments first_post_value previous rounds t)
    unfolding replay_rounds bypass_rows
    replay_rounds-Extends previous [] t = record {
      rows = [];
      timeline = sym (append-nil t.timeline);
      keys = refl;
      bypasses = omega arith;
      checked = tt;
    }
    replay_rounds-Extends previous (round ∷ rounds) t =
        let added = replay_round-Adds previous round t in
        let later = replay_rounds-Extends (some round) rounds _ in
        record {
          rows = added.row ∷ later.rows;
          timeline =
              later.timeline
              ∙ (ap (λ (rows : List TimelineRound). rows ++ later.rows) added.timeline
                  ∙ append_assoc t.timeline (added.row ∷ []) later.rows);
          keys = λ i. added.key i ∷ later.keys i;
          bypasses = omega (arith, added.bypasses, later.bypasses);
          checked = (may_bypass-path previous round t _ added, later.checked);
        }

module _ (to_lowercase : String → String) (input : FeedReplayInput) where
  tally_rounds-Extends :
      Extends input
        (bound_segments input.bound_groups)
        (answer_of_first input.rounds)
        to_lowercase
        input.rounds
        (no_tally (segment_samples (bound_segments input.bound_groups) []))
        (tally_rounds to_lowercase input)
  unfolding tally_rounds
  tally_rounds-Extends =
      replay_rounds-Extends input (bound_segments input.bound_groups) (answer_of_first input.rounds)
        to_lowercase none input.rounds
        (no_tally (segment_samples (bound_segments input.bound_groups) []))

  -- The timeline has one row for each round, in their order, with its number, its block, its answer and
  -- its path.
  pub replay_feed-timeline :
      map row_key (replay_feed to_lowercase input).timeline ≡ map round_key input.rounds
  unfolding replay_feed
  replay_feed-timeline = let all = tally_rounds-Extends in ap (map row_key) all.timeline ∙ all.keys

  -- The bypasses that a replay counts, external and internal together, are the rows of the timeline that
  -- it marks as bypasses, and each of those rows was posted on an unchecked path.
  pub replay_feed-bypass_rows :
      ((replay_feed to_lowercase input).bypass_posts_external
          + (replay_feed to_lowercase input).bypass_posts_internal
        ≡ bypass_rows (replay_feed to_lowercase input).timeline)
      × All
          (λ row. row.finding ≡ some guard_bypass → is_unchecked row.path ≡ true)
          (replay_feed to_lowercase input).timeline
  unfolding replay_feed
  replay_feed-bypass_rows =
      let all = tally_rounds-Extends in
      (omega (arith, all.bypasses, ap bypass_rows all.timeline), rw all.timeline all.checked)
