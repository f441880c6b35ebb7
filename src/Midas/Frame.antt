-- ===== src/Midas/Frame.antt =====
-- midas.rs, `replay_feed`: what a guard may do to the tally and to its own row.
use Prim.Native.String.{String}
use crossfoot.Base.{
  ◌+◌, ◌≡◌, ◌∙◌, arith, Bool, false, Option, none, some, List, ℤ, Bool-cases, inl, inr,
}
use crossfoot.Midas.{AttributedRound, StateAtBlock, BoundSegment, is_unchecked, needs_state}
use crossfoot.Midas.Feed.{FeedReplayInput, Tally, TimelineRound, guard_bypass}
use crossfoot.Midas.Guards.{
  Marked, spacing_guard, range_guard, absolute_guard, reference_guard, clamp_guard, without_guard,
  sampled,
}
use crossfoot.Midas.Events.{event_guard}
use crossfoot.Midas.Bounded.{judge_bound, check_history, state_guard, bounded_guard, is_stale_state}
use crossfoot.Midas.Rounds.{guarded}
use crossfoot.Midas.Agreement.{guarded_cases}
use crossfoot.Midas.Agreement.{one_if}

-- A guard leaves the rows before, the counts of posts, and what its own row says of the round; it marks
-- the row as a bypass exactly when it counts one, and only if the path is unchecked.
pub record Rules (unchecked : Bool) (m m' : Marked) : Type 0 where
  pub timeline : m'.0.timeline ≡ m.0.timeline
  pub counts : m'.0.counts ≡ m.0.counts
  pub external : m'.0.external ≡ m.0.external
  pub internal : m'.0.internal ≡ m.0.internal
  pub round_id : m'.1.round_id ≡ m.1.round_id
  pub block : m'.1.block ≡ m.1.block
  pub answer : m'.1.answer ≡ m.1.answer
  pub path : m'.1.path ≡ m.1.path
  pub bypasses :
      m'.0.bypass_external + m'.0.bypass_internal + one_if guard_bypass m.1.finding
      ≡ m.0.bypass_external + m.0.bypass_internal + one_if guard_bypass m'.1.finding
  pub checked : unchecked ≡ false → one_if guard_bypass m'.1.finding ≡ 0

Rules-refl :
    (unchecked : Bool) (m : Marked) → one_if guard_bypass m.1.finding ≡ 0 → Rules unchecked m m
Rules-refl unchecked m h = grind arith

pub Rules-trans :
    {before unchecked : Bool} {m m' m'' : Marked}
    → Rules before m m'
    → Rules unchecked m' m''
    → Rules unchecked m m''
Rules-trans h k = record {
  timeline = k.timeline ∙ h.timeline;
  counts = k.counts ∙ h.counts;
  external = k.external ∙ h.external;
  internal = k.internal ∙ h.internal;
  round_id = k.round_id ∙ h.round_id;
  block = k.block ∙ h.block;
  answer = k.answer ∙ h.answer;
  path = k.path ∙ h.path;
  bypasses = omega (arith, h.bypasses, k.bypasses);
  checked = k.checked;
}

module _ (input : FeedReplayInput) (previous round : AttributedRound) where
  range_guard-Rules :
      (range : ℤ × ℤ) (m : Marked)
      → one_if guard_bypass m.1.finding ≡ 0
      → Rules (is_unchecked round.attribution.path) m (range_guard input previous round range m)
  unfolding range_guard
  range_guard-Rules range m h = grind arith

  pub spacing_guard-Rules :
      (m : Marked)
      → one_if guard_bypass m.1.finding ≡ 0
      → Rules (is_unchecked round.attribution.path) m (spacing_guard input previous round m)
        × (one_if guard_bypass (spacing_guard input previous round m).1.finding ≡ 0)
  unfolding spacing_guard
  spacing_guard-Rules m h = (grind arith, grind arith)

  absolute_guard-Rules :
      (state : Option StateAtBlock) (m : Marked)
      → one_if guard_bypass m.1.finding ≡ 0
      → Rules (is_unchecked round.attribution.path) m (absolute_guard input previous round state m)
  unfolding absolute_guard
  absolute_guard-Rules none m h = grind arith
  absolute_guard-Rules (some state) m h = grind arith

  reference_guard-Rules :
      (state : Option StateAtBlock) (m : Marked)
      → one_if guard_bypass m.1.finding ≡ 0
      → Rules (is_unchecked round.attribution.path) m (reference_guard input previous round state m)
  unfolding reference_guard
  reference_guard-Rules none m h = grind arith
  reference_guard-Rules (some state) m h = grind arith

  clamp_guard-Rules :
      (band : ℤ) (m : Marked)
      → one_if guard_bypass m.1.finding ≡ 0
      → Rules (is_unchecked round.attribution.path) m (clamp_guard input previous round band m)
  unfolding clamp_guard
  clamp_guard-Rules band m h = grind arith

  without_guard-Rules :
      (m : Marked)
      → one_if guard_bypass m.1.finding ≡ 0
      → Rules (is_unchecked round.attribution.path) m (without_guard input previous round m)
  unfolding without_guard
  without_guard-Rules m h = grind arith

  event_guard-Rules :
      (rules : String → Option ℤ) (m : Marked)
      → one_if guard_bypass m.1.finding ≡ 0
      → Rules (is_unchecked round.attribution.path) m (event_guard input previous round rules m)
  unfolding event_guard
  event_guard-Rules rules m h = grind arith

  module _ (segments : List BoundSegment) (first_post_value : ℤ) where
    judge_bound-Rules :
        (state : StateAtBlock) (m : Marked)
        → one_if guard_bypass m.1.finding ≡ 0
        → Rules
            (is_unchecked round.attribution.path)
            m
            (judge_bound input segments first_post_value previous round state m)
    unfolding judge_bound
    judge_bound-Rules state m h = grind arith

    check_history-Rules :
        (state : StateAtBlock) (t : Tally) (row : TimelineRound)
        → one_if guard_bypass row.finding ≡ 0
        → Rules
            (is_unchecked round.attribution.path)
            (t, row)
            (
              check_history input segments first_post_value previous round state
                  (sampled input previous round state t),
              row,
            )
    unfolding check_history
    check_history-Rules state t row h = grind arith

    state_guard-Rules :
        (state : Option StateAtBlock) (m : Marked)
        → one_if guard_bypass m.1.finding ≡ 0
        → Rules
            (is_unchecked round.attribution.path)
            m
            (state_guard input segments first_post_value previous round state m)
    unfolding state_guard
    state_guard-Rules none m h = grind arith
    state_guard-Rules (some state) (t, row) h =
        elim (Bool-cases (is_stale_state input segments first_post_value previous round state)) [
          | inl old ↦ rw old (grind arith)
          | inr fresh ↦
              rw fresh
                (Rules-trans (check_history-Rules state t row h) (judge_bound-Rules state _ h))
        ]

    bounded_guard-Rules :
        (bound : ℤ) (state : Option StateAtBlock) (m : Marked)
        → one_if guard_bypass m.1.finding ≡ 0
        → Rules
            (is_unchecked round.attribution.path)
            m
            (bounded_guard input segments first_post_value previous round bound state m)
    unfolding bounded_guard
    bounded_guard-Rules bound state m h = elim (Bool-cases (needs_state bound previous round)) [
      | inl read ↦ rw read (state_guard-Rules state m h)
      | inr skip ↦ rw skip (Rules-refl _ m h)
    ]

    pub guarded-Rules :
        (state : Option StateAtBlock) (m : Marked)
        → one_if guard_bypass m.1.finding ≡ 0
        → Rules
            (is_unchecked round.attribution.path)
            m
            (guarded input segments first_post_value previous round state m)
    guarded-Rules state m h =
        guarded_cases input segments first_post_value previous round state m
          (Rules (is_unchecked round.attribution.path) m) (λ range. range_guard-Rules range m h)
          (absolute_guard-Rules state m h) (λ rules. event_guard-Rules rules m h)
          (reference_guard-Rules state m h) (λ band. clamp_guard-Rules band m h)
          (without_guard-Rules m h) (λ bound. bounded_guard-Rules bound state m h)
