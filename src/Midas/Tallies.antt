-- ===== src/Midas/Tallies.antt =====
-- midas.rs, `replay_feed`: every counter of a replayed feed against its findings.
use Prim.Native.String.{String}
use crossfoot.Base.{
  ℕ, ◌+◌, ◌≡◌, ap, same_text, if◌then◌else◌, ◌∙◌, refl, arith, Option, none, some, List, [], ◌∷◌, ℤ,
  Option-cases, inl, inr,
}
use crossfoot.Midas.{
  AttributedRound, StateAtBlock, BoundSegment, Bounds, ReferenceMove, BoundEventGroup, SetterTx,
}
use crossfoot.Midas.Feed.{
  Kind, guard_bypass, unguarded_post, guard_inconsistent, guard_at_bound, guard_clamped,
  override_flag_set, unguarded_reference_move, silence, bound_changed, failed_setter,
  attribution_gap, Notice, kind_name, FeedReplayInput, Tally,
}
use crossfoot.Midas.Guards.{Marked}
use crossfoot.Midas.Rounds.{
  count_post, note_poster, note_flag, first_round, guarded, later_round, judge_round, replay_round,
  replay_rounds, tally_rounds, row_of,
}
use crossfoot.Midas.Replay.{
  move_findings, reference_findings, notice_findings, silences_after, silence_findings, change_of,
  bound_findings, failed_findings, unresolved_findings, id_findings, replay_feed,
}
use crossfoot.Midas.Agreement.{
  one_if, reports, guarded_cases, reports-append, reports-add, Agrees, range_guard-Agrees,
  spacing_guard-Agrees, absolute_guard-Agrees, reference_guard-Agrees, clamp_guard-Agrees,
  without_guard-Agrees, event_guard-Agrees, bounded_guard-Agrees,
}

module _ (input : FeedReplayInput) where
  note_flag-Agrees :
      (round : AttributedRound) (t : Tally) → Agrees t → Agrees (note_flag input round t)
  unfolding note_flag
  note_flag-Agrees round t h = grind (arith, reports-add)

  first_round-Agrees :
      (round : AttributedRound) (m : Marked) → Agrees m.0 → Agrees (first_round input round m).0
  unfolding first_round
  first_round-Agrees round m h = grind (arith, reports-add)

  module _ (segments : List BoundSegment) (first_post_value : ℤ) where
    guarded-Agrees :
        (previous round : AttributedRound) (state : Option StateAtBlock) (m : Marked)
        → Agrees m.0
        → Agrees (guarded input segments first_post_value previous round state m).0
    guarded-Agrees previous round state m h =
        guarded_cases input segments first_post_value previous round state m (λ m'. Agrees m'.0)
          (λ range. range_guard-Agrees input previous round range m h)
          (absolute_guard-Agrees input previous round state m h)
          (λ rules. event_guard-Agrees input previous round rules m h)
          (reference_guard-Agrees input previous round state m h)
          (λ band. clamp_guard-Agrees input previous round band m h)
          (without_guard-Agrees input previous round m h)
          (λ bound.
            bounded_guard-Agrees input previous round segments first_post_value bound state m h)

    judge_round-Agrees :
        (previous : Option AttributedRound) (round : AttributedRound) (m : Marked)
        → Agrees m.0
        → Agrees (judge_round input segments first_post_value previous round m).0
    unfolding judge_round later_round
    judge_round-Agrees none round m h = first_round-Agrees round m h
    judge_round-Agrees (some previous) round m h =
        guarded-Agrees previous round _ _ (spacing_guard-Agrees input previous round m h)

    module _ (to_lowercase : String → String) where
      replay_round-Agrees :
          (previous : Option AttributedRound) (round : AttributedRound) (t : Tally)
          → Agrees t
          → Agrees (replay_round to_lowercase input segments first_post_value previous round t)
      unfolding replay_round count_post
      replay_round-Agrees previous round t h =
          let noted =
            note_flag-Agrees round (note_poster to_lowercase round (count_post round t))
              (grind arith) in
          let judged = judge_round-Agrees previous round (_, row_of round) noted in
          record {
            bypasses = judged.bypasses;
            unguarded = judged.unguarded;
            at_bound = judged.at_bound;
            clamped = judged.clamped;
            flags = judged.flags;
          }

      replay_rounds-Agrees :
          (previous : Option AttributedRound) (rounds : List AttributedRound) (t : Tally)
          → Agrees t
          → Agrees (replay_rounds to_lowercase input segments first_post_value previous rounds t)
      unfolding replay_rounds
      replay_rounds-Agrees previous [] t h = h
      replay_rounds-Agrees previous (round ∷ rounds) t h =
          replay_rounds-Agrees (some round) rounds _ (replay_round-Agrees previous round t h)

  pub tally_rounds-Agrees :
      (to_lowercase : String → String) → Agrees (tally_rounds to_lowercase input)
  unfolding tally_rounds reports
  tally_rounds-Agrees to_lowercase =
      replay_rounds-Agrees _ _ to_lowercase none input.rounds _ (record {
        bypasses = refl;
        unguarded = refl;
        at_bound = refl;
        clamped = refl;
        flags = refl;
      })

-- The notices that name the kind.
unfoldable pub notices_of : Kind → List Notice → ℕ
notices_of kind [] = 0
notices_of kind (n ∷ notices) =
    (if same_text n.kind (kind_name kind) then 1 else 0) + notices_of kind notices

notice_reports :
    (kind : Kind) (notices : List Notice)
    → reports kind (notice_findings notices) ≡ notices_of kind notices
unfolding reports notices_of
notice_reports kind [] = refl
notice_reports kind (n ∷ notices) = omega (arith, notice_reports kind notices)

-- A kind that no finding outside the rounds has.
record IsPostKind (kind : Kind) : Type 0 where
  inconsistent : one_if kind (some guard_inconsistent) ≡ 0
  move : one_if kind (some unguarded_reference_move) ≡ 0
  silent : one_if kind (some silence) ≡ 0
  changed : one_if kind (some bound_changed) ≡ 0
  failed : one_if kind (some failed_setter) ≡ 0
  gap : one_if kind (some attribution_gap) ≡ 0

module _ (kind : Kind) (apart : IsPostKind kind) where
  reference_none :
      (unit : ℤ) (bound : Option ℤ) (moves : List ReferenceMove)
      → reports kind (reference_findings unit bound moves) ≡ 0
  unfolding reports reference_findings move_findings
  reference_none unit bound [] = refl
  reference_none unit bound (move ∷ moves) =
      grind (arith, reports-append, reference_none unit bound moves)

  silences_none :
      (limit : ℕ) (previous : AttributedRound) (rounds : List AttributedRound)
      → reports kind (silences_after limit previous rounds) ≡ 0
  unfolding reports silences_after
  silences_none limit previous [] = refl
  silences_none limit previous (round ∷ rounds) =
      grind (arith, reports-append, silences_none limit round rounds)

  silence_none :
      (limit : Option ℕ) (rounds : List AttributedRound)
      → reports kind (silence_findings limit rounds) ≡ 0
  unfolding reports silence_findings
  silence_none none rounds = refl
  silence_none (some limit) [] = refl
  silence_none (some limit) (first ∷ rounds) = silences_none limit first rounds

  change_none :
      (before : Option Bounds) (after : Bounds) (group : BoundEventGroup)
      → reports kind (change_of before after group) ≡ 0
  unfolding reports change_of
  change_none none after group = refl
  change_none (some before) after group = grind arith

  bound_none :
      (previous : Option Bounds) (groups : List BoundEventGroup)
      → reports kind (bound_findings previous groups) ≡ 0
  unfolding reports bound_findings
  bound_none previous [] = refl
  bound_none previous (group ∷ groups) = elim (Option-cases group.after) [
    | inl absent ↦ rw absent (bound_none previous groups)
    | inr (after, found) ↦
        rw (found, reports-append, change_none, bound_none (some after) groups) refl
  ]

  failed_none :
      (to_lowercase : String → String) (posters : List String) (txs : List SetterTx)
      → reports kind (failed_findings to_lowercase posters txs) ≡ 0
  unfolding reports
  failed_none to_lowercase posters [] = refl
  failed_none to_lowercase posters (tx ∷ txs) = omega (arith, failed_none to_lowercase posters txs)

  unresolved_none : (count : ℕ) → reports kind (unresolved_findings count) ≡ 0
  unfolding reports
  unresolved_none count = grind arith

  id_none : (note : Option String) → reports kind (id_findings note) ≡ 0
  unfolding reports
  id_none none = refl
  id_none (some note) = omega arith

  -- After the loop over the rounds only notices add findings of the kind.
  replay_feed-reports :
      (to_lowercase : String → String) (input : FeedReplayInput)
      → reports kind (replay_feed to_lowercase input).findings
        ≡ reports kind (tally_rounds to_lowercase input).findings + notices_of kind input.notices
  unfolding replay_feed
  replay_feed-reports to_lowercase input =
      simp
        (
          reports-append, reference_none, notice_reports, silence_none, bound_none, failed_none,
          unresolved_none, id_none,
        )
        (omega arith)

-- The findings of a kind are as many as its counter says and, since the configuration may name any
-- kind for a notice, the notices that name this one: for bypasses, external and internal together, for
-- unguarded posts, posts at a bound, truncated posts and override flags.
pub replay_feed-counts :
    (to_lowercase : String → String) (input : FeedReplayInput)
    → (reports guard_bypass (replay_feed to_lowercase input).findings
        ≡ (replay_feed to_lowercase input).bypass_posts_external
          + (replay_feed to_lowercase input).bypass_posts_internal
          + notices_of guard_bypass input.notices)
      × (reports unguarded_post (replay_feed to_lowercase input).findings
          ≡ (replay_feed to_lowercase input).unguarded_posts
            + notices_of unguarded_post input.notices)
      × (reports guard_at_bound (replay_feed to_lowercase input).findings
          ≡ (replay_feed to_lowercase input).at_bound_posts
            + notices_of guard_at_bound input.notices)
      × (reports guard_clamped (replay_feed to_lowercase input).findings
          ≡ (replay_feed to_lowercase input).clamped_posts + notices_of guard_clamped input.notices)
      × (reports override_flag_set (replay_feed to_lowercase input).findings
          ≡ (replay_feed to_lowercase input).override_flags
            + notices_of override_flag_set input.notices)
unfolding replay_feed
replay_feed-counts to_lowercase input =
    let held = tally_rounds-Agrees input to_lowercase in
    (
      replay_feed-reports guard_bypass
            (record {
              inconsistent = refl;
              move = refl;
              silent = refl;
              changed = refl;
              failed = refl;
              gap = refl;
            })
            to_lowercase input
          ∙ ap (λ n. n + notices_of guard_bypass input.notices) held.bypasses,
      replay_feed-reports unguarded_post
            (record {
              inconsistent = refl;
              move = refl;
              silent = refl;
              changed = refl;
              failed = refl;
              gap = refl;
            })
            to_lowercase input
          ∙ ap (λ n. n + notices_of unguarded_post input.notices) held.unguarded,
      replay_feed-reports guard_at_bound
            (record {
              inconsistent = refl;
              move = refl;
              silent = refl;
              changed = refl;
              failed = refl;
              gap = refl;
            })
            to_lowercase input
          ∙ ap (λ n. n + notices_of guard_at_bound input.notices) held.at_bound,
      replay_feed-reports guard_clamped
            (record {
              inconsistent = refl;
              move = refl;
              silent = refl;
              changed = refl;
              failed = refl;
              gap = refl;
            })
            to_lowercase input
          ∙ ap (λ n. n + notices_of guard_clamped input.notices) held.clamped,
      replay_feed-reports override_flag_set
            (record {
              inconsistent = refl;
              move = refl;
              silent = refl;
              changed = refl;
              failed = refl;
              gap = refl;
            })
            to_lowercase input
          ∙ ap (λ n. n + notices_of override_flag_set input.notices) held.flags,
    )
