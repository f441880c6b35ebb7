-- ===== src/Midas/Marks.antt =====
-- midas.rs, `replay_feed`: the rows of the rounds that a deviation bound does not count as bypasses.
use Prim.Native.String.{String}
use mathlib.Core.List.{append_assoc, append-nil}
use crossfoot.Base.{
  ◌-◌, ◌≡◌, ◌∙◌, sym, ap, refl, arith, true, false, Option, none, some, List, [], ◌∷◌, ◌++◌, ℤ,
  ltb_ℤ, Bool-cases, inl, inr, saturating_sub,
}
use crossfoot.Midas.{
  AttributedRound, StateAtBlock, BoundSegment, bound_segments, is_unchecked, needs_state,
}
use crossfoot.Midas.Feed.{
  FeedReplayInput, Tally, TimelineRound, guard_inconsistent, attribution_gap,
}
use crossfoot.Midas.Guards.{Marked, spacing_guard, series_deviation}
use crossfoot.Midas.Bounded.{bounded_guard, state_guard, judge_bound, is_stale_state}
use crossfoot.Midas.Rounds.{
  guarded, guard_by, later_round, judge_round, replay_round, replay_rounds, tally_rounds,
  answer_of_first, no_tally, segment_samples,
}
use crossfoot.Midas.Replay.{replay_feed}
use crossfoot.Midas.Timeline.{judged_row, replay_round-timeline}
use crossfoot.Midas.OverBound.{IsBounded, Fresh, Over, is_stale_state-Fresh}

-- A round whose state is needed, with what was read of it: an unread state and one that disagrees with
-- the series are marked as gaps, and a post over the bound on a checked path as inconsistent.
pub record Marks (input : FeedReplayInput) (segments : List BoundSegment)
    (first_post_value bound : ℤ) (previous round : AttributedRound) (read : Option StateAtBlock)
    (row : TimelineRound) : Type 0 where
  pub unread :
      needs_state bound previous round ≡ true → read ≡ none → row.finding ≡ some attribution_gap
  pub stale :
      (state : StateAtBlock)
      → needs_state bound previous round ≡ true
      → read ≡ some state
      → ¬ Fresh input segments first_post_value previous round state
      → row.finding ≡ some attribution_gap
  pub over :
      (state : StateAtBlock)
      → needs_state bound previous round ≡ true
      → read ≡ some state
      → Fresh input segments first_post_value previous round state
      → Over input segments first_post_value previous round state
      → is_unchecked round.attribution.path ≡ false
      → row.finding ≡ some guard_inconsistent

module _ (input : FeedReplayInput) (segments : List BoundSegment) (first_post_value : ℤ) where
  module _ (previous round : AttributedRound) where
    bounded_guard-Marks :
        (bound : ℤ) (read : Option StateAtBlock) (m : Marked)
        → Marks input segments first_post_value bound previous round read
            (bounded_guard input segments first_post_value previous round bound read m).1
    unfolding bounded_guard state_guard judge_bound
    bounded_guard-Marks bound read m = record {
      unread = λ needed e. rw (needed, e) refl;
      stale = λ state needed e apart.
          elim (Bool-cases (is_stale_state input segments first_post_value previous round state)) [
            | inl old ↦ rw (needed, e, old) refl
            | inr new ↦ absurd (
                apart (
                  (is_stale_state-Fresh input segments first_post_value previous round state).0
                    new))
          ];
      over = λ state needed e fresh above checked.
          let new =
            (is_stale_state-Fresh input segments first_post_value previous round state).1 fresh in
          elim (Bool-cases (ltb_ℤ state.bound (series_deviation input previous round))) [
            | inl d ↦ rw (needed, e, new, checked, d) refl
            | inr d ↦ absurd (ground (arith, d, above))
          ];
    }

    later_round-Marks :
        (bounded : IsBounded input) (m : Marked)
        → Marks input segments first_post_value bounded.bound previous round
            (input.states (round.event.block - 1))
            (later_round input segments first_post_value previous round m).1
    unfolding later_round guarded saturating_sub
    later_round-Marks b m =
        simp (b.unranged, b.uncapped, b.unruled, b.unreferred, b.unclamped, b.bounded, guard_by)
          (bounded_guard-Marks b.bound (input.states (round.event.block - 1))
            (spacing_guard input previous round m))

  abbrev pub MarksAfter : ℤ → AttributedRound → List AttributedRound → List TimelineRound → Type 0
  MarksAfter bound previous [] rows = rows ≡ []
  MarksAfter bound previous (round ∷ rounds) [] = ⊥
  MarksAfter bound previous (round ∷ rounds) (row ∷ rows) =
      Marks input segments first_post_value bound previous round
        (input.states (round.event.block - 1)) row
      × MarksAfter bound round rounds rows

  -- The rows of a feed, each later one with what its round requires.
  abbrev pub MarksAll : ℤ → List AttributedRound → List TimelineRound → Type 0
  MarksAll bound [] rows = rows ≡ []
  MarksAll bound (first ∷ rounds) [] = ⊥
  MarksAll bound (first ∷ rounds) (row ∷ rows) = MarksAfter bound first rounds rows

  module _ (to_lowercase : String → String) (bounded : IsBounded input) where
    replay_rounds-MarksAfter :
        (previous : AttributedRound) (rounds : List AttributedRound) (t : Tally)
        → (rows : List TimelineRound) × ((replay_rounds to_lowercase input segments first_post_value
              (some previous)
              rounds
              t).timeline
            ≡ t.timeline ++ rows)
          × MarksAfter bounded.bound previous rounds rows
    unfolding replay_rounds judge_round
    replay_rounds-MarksAfter previous [] t = ([], sym (append-nil t.timeline), refl)
    replay_rounds-MarksAfter previous (round ∷ rounds) t =
        let row = judged_row input segments first_post_value to_lowercase (some previous) round t in
        let (rows, later, marks) = replay_rounds-MarksAfter round rounds _ in
        let step =
          replay_round-timeline input segments first_post_value to_lowercase (some previous) round
            t in
        (
          row ∷ rows,
          later ∙ ap (λ xs. xs ++ rows) step ∙ append_assoc t.timeline (row ∷ []) rows,
          (later_round-Marks previous round bounded _, marks),
        )

    replay_all-MarksAll :
        (rounds : List AttributedRound) (t : Tally)
        → t.timeline ≡ []
        → MarksAll bounded.bound rounds
            (replay_rounds to_lowercase input segments first_post_value none rounds t).timeline
    unfolding replay_rounds
    replay_all-MarksAll [] t start = start
    replay_all-MarksAll (first ∷ rounds) t start =
        let row = judged_row input segments first_post_value to_lowercase none first t in
        let (rows, later, marks) =
          replay_rounds-MarksAfter first rounds
            (replay_round to_lowercase input segments first_post_value none first t) in
        let step =
          replay_round-timeline input segments first_post_value to_lowercase none first t in
        let whole = later ∙ ap (λ xs. xs ++ rows) (step ∙ ap (λ xs. xs ++ (row ∷ [])) start) in
        rw whole marks

-- What the marks of a feed are judged with are its own segments and first answer.
pub replay_feed-MarksAll :
    (to_lowercase : String → String) (input : FeedReplayInput) (bounded : IsBounded input)
    → MarksAll input
        (bound_segments input.bound_groups)
        (answer_of_first input.rounds)
        bounded.bound
        input.rounds
        (replay_feed to_lowercase input).timeline
unfolding replay_feed tally_rounds
replay_feed-MarksAll to_lowercase input bounded =
    replay_all-MarksAll input (bound_segments input.bound_groups) (answer_of_first input.rounds)
      to_lowercase bounded input.rounds
      (no_tally (segment_samples (bound_segments input.bound_groups) [])) refl
