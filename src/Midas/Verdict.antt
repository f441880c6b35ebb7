-- ===== src/Midas/Verdict.antt =====
-- midas.rs and run_midas.rs: the bypasses of a whole feed and the verdict on it.
use Prim.Native.String.{String}
use crossfoot.Base.{
  ℕ, ◌+◌, ◌≡◌, ◌≤◌, ◌↔◌, inl, inr, refl, arith, Bool, true, false, Option, none, some, List, [],
  ◌∷◌, ℤ, All, le-lt-cases,
}
use crossfoot.Midas.{
  AttributedRound, BoundSegment, bound_segments, is_setter, Liveness, live, allow,
}
use crossfoot.Midas.Allow.{feed_verdict-allow}
use crossfoot.Midas.Feed.{FeedReplayInput, Tally, Kind, guard_bypass}
use crossfoot.Midas.Guards.{Marked}
use crossfoot.Midas.Rounds.{
  note_flag, first_round, judge_round, replay_round, replay_rounds, tally_rounds, row_of,
  answer_of_first, no_tally, segment_samples,
}
use crossfoot.Midas.Replay.{count_unattributed, replay_feed, judge_feed}
use crossfoot.Midas.Agreement.{one_if}
use crossfoot.Midas.Frame.{Rules-trans}
use crossfoot.Midas.Timeline.{judge_round-Rules, note_flag-Rules, noted, noted_bypasses}
use crossfoot.Midas.Marks.{MarksAll, replay_feed-MarksAll}
use crossfoot.Midas.OverBound.{IsBounded, IsBypass, later_round-IsBypass}

-- No round of the list bypasses the bound against the one before it.
abbrev pub NoneBypassesAfter : FeedReplayInput → AttributedRound → List AttributedRound → Type 0
NoneBypassesAfter input previous [] = Unit
NoneBypassesAfter input previous (round ∷ rounds) =
    (¬ IsBypass input previous round) × NoneBypassesAfter input round rounds

abbrev pub NoneBypasses : FeedReplayInput → List AttributedRound → Type 0
NoneBypasses input [] = Unit
NoneBypasses input (first ∷ rounds) = NoneBypassesAfter input first rounds

abbrev bypasses_of : Tally → ℕ
bypasses_of t = t.bypass_external + t.bypass_internal

one_if-le : (finding : Option Kind) → one_if guard_bypass finding ≤ 1
one_if-le finding = ground arith

module _ (to_lowercase : String → String) (input : FeedReplayInput) (segments : List BoundSegment)
    (first_post_value : ℤ) where
  abbrev marked : Option AttributedRound → AttributedRound → Tally → Marked
  marked previous round t =
      judge_round input segments first_post_value previous round
        (note_flag input round (noted to_lowercase round t), row_of round)

  replay_round_bypasses :
      (previous : Option AttributedRound) (round : AttributedRound) (t : Tally)
      → bypasses_of (replay_round to_lowercase input segments first_post_value previous round t)
        ≡ bypasses_of t + one_if guard_bypass (marked previous round t).1.finding
  unfolding replay_round
  replay_round_bypasses previous round t =
      let t' = noted to_lowercase round t in
      let flagged = note_flag-Rules input segments first_post_value round t' in
      let judged =
        judge_round-Rules input segments first_post_value previous round
          (note_flag input round t', row_of round) refl in
      omega (arith, (Rules-trans flagged judged).bypasses, noted_bypasses to_lowercase round t)

  first_round_bypasses :
      (first : AttributedRound) (t : Tally)
      → bypasses_of (replay_round to_lowercase input segments first_post_value none first t)
        ≡ bypasses_of t
  first_round_bypasses first t =
      let t' = note_flag input first (noted to_lowercase first t) in
      let judged =
        judge_round-Rules input segments first_post_value none first (t', row_of first) refl in
      omega (arith, replay_round_bypasses none first t, judged.checked refl)

  module _ (bounded : IsBounded input) where
    replay_round-IsBypass :
        (previous round : AttributedRound) (t : Tally)
        → (bypasses_of
              (replay_round to_lowercase input segments first_post_value (some previous) round t)
            ≡ 0)
          ↔ ((bypasses_of t ≡ 0) × (¬ IsBypass input previous round))
    unfolding judge_round
    replay_round-IsBypass previous round t =
        let step = replay_round_bypasses (some previous) round t in
        let (forth, back) =
          later_round-IsBypass input segments first_post_value previous round
            (note_flag input round (noted to_lowercase round t), row_of round) bounded refl in
        let few = one_if-le (marked (some previous) round t).1.finding in
        (
          λ e. (omega (arith, step), λ bypass. omega (arith, step, back bypass)),
          λ (e, within).
              elim (le-lt-cases (one_if guard_bypass (marked (some previous) round t).1.finding)
                0) [
                  | inl clear ↦ omega (arith, step, clear)
                  | inr bypass ↦ absurd (within (forth (omega (arith, bypass, few))))
                ],
        )

    replay_rounds-NoneBypasses :
        (previous : AttributedRound) (rounds : List AttributedRound) (t : Tally)
        → (bypasses_of
              (replay_rounds to_lowercase input segments first_post_value (some previous) rounds t)
            ≡ 0)
          ↔ ((bypasses_of t ≡ 0) × NoneBypassesAfter input previous rounds)
    unfolding replay_rounds
    replay_rounds-NoneBypasses previous [] t = (λ h. (h, tt), λ h. h.0)
    replay_rounds-NoneBypasses previous (round ∷ rounds) t =
        let (forth, back) = replay_rounds-NoneBypasses round rounds _ in
        let (one, all) = replay_round-IsBypass previous round t in
        (
          λ h. let (e, rest) = forth h in let (e', within) = one e in (e', (within, rest)),
          λ (e, (within, rest)). back (all (e, within), rest),
        )

    replay_all-NoneBypasses :
        (rounds : List AttributedRound) (t : Tally)
        → bypasses_of t ≡ 0
        → (bypasses_of (replay_rounds to_lowercase input segments first_post_value none rounds t)
            ≡ 0)
          ↔ NoneBypasses input rounds
    unfolding replay_rounds judge_round first_round
    replay_all-NoneBypasses [] t h = (λ e. tt, λ w. h)
    replay_all-NoneBypasses (first ∷ rounds) t h =
        let start = first_round_bypasses first t in
        let (forth, back) =
          replay_rounds-NoneBypasses first rounds
            (replay_round to_lowercase input segments first_post_value none first t) in
        (λ e. (forth e).1, λ w. back (omega (arith, start, h), w))

-- A feed whose only guard is a bound on the deviation counts no bypass exactly when no round after the
-- first bypasses it: took an unchecked path and deviates by more than the bound read at the block before
-- it, where that state was read and agrees with the series, or the round before is in the same block.
-- Posts over the bound on a checked path, and posts whose state is unread or disagrees, are not counted.
pub replay_feed-NoneBypasses :
    (to_lowercase : String → String) (input : FeedReplayInput)
    → IsBounded input
    → ((replay_feed to_lowercase input).bypass_posts_external
          + (replay_feed to_lowercase input).bypass_posts_internal
        ≡ 0)
      ↔ NoneBypasses input input.rounds
unfolding replay_feed tally_rounds
replay_feed-NoneBypasses to_lowercase input bounded =
    replay_all-NoneBypasses to_lowercase input (bound_segments input.bound_groups)
      (answer_of_first input.rounds) bounded input.rounds
      (no_tally (segment_samples (bound_segments input.bound_groups) [])) refl

count_unattributed-All :
    (rounds : List AttributedRound)
    → (count_unattributed rounds ≡ 0)
      ↔ All (λ round. is_setter round.attribution.path ≡ true) rounds
unfolding count_unattributed
count_unattributed-All [] = (λ h. tt, λ h. refl)
count_unattributed-All (round ∷ rounds) =
    let (forth, back) = count_unattributed-All rounds in
    (
      λ h. (ground (arith, h), forth (omega (arith, h))),
      λ (setter, rest). rw setter (omega (arith, back rest)),
    )

-- A feed whose only guard is a bound on the deviation is allowed exactly when no round after the first
-- bypasses it, every round was posted by a known setter, and the feed is live. A round bypasses the
-- bound if it took an unchecked path and deviates by more than the bound read at the block before it,
-- where that state was read and agrees with the series, or the round before is in the same block. So a
-- post over the bound on a checked path, and a post whose state is unread or disagrees with the series,
-- do not prevent the permission. The timeline marks them, allowed or not: it has a row for each round,
-- and of the later rounds whose state is needed, which are those on an unchecked path and those on a
-- checked path that deviate by more than the bound at the pinned block, the ones with an unread state
-- or one that disagrees are marked as gaps in the attribution, and the ones on a checked path over the
-- bound read at the block before them as inconsistent with the guard.
pub judge_feed-allow :
    (to_lowercase : String → String) (input : FeedReplayInput) (l : Liveness) (aggregated : Bool)
    (bounded : IsBounded input)
    → (((judge_feed (replay_feed to_lowercase input) l true aggregated).2 ≡ allow) ↔ (
        NoneBypasses input input.rounds
        × All (λ round. is_setter round.attribution.path ≡ true) input.rounds
        × (l ≡ live)))
      × MarksAll input
          (bound_segments input.bound_groups)
          (answer_of_first input.rounds)
          bounded.bound
          input.rounds
          (replay_feed to_lowercase input).timeline
unfolding judge_feed replay_feed
judge_feed-allow to_lowercase input l aggregated bounded =
    let (allowed, allows) = feed_verdict-allow false _ _ l true aggregated in
    let (within, clean) = replay_feed-NoneBypasses to_lowercase input bounded in
    let (setters, attributed) = count_unattributed-All input.rounds in
    (
      (
        λ h. let (r, b, u, e) = allowed h in (within b, setters u, e),
        λ (w, s, e). allows (refl, clean w, attributed s, e),
      ),
      replay_feed-MarksAll to_lowercase input bounded,
    )
