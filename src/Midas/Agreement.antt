-- ===== src/Midas/Agreement.antt =====
-- midas.rs, `replay_feed`: the counters of the tally against the findings.
use Prim.Native.String.{String}
use crossfoot.Base.{
  ℕ, ◌⊎◌, same_text, ◌+◌, ◌≡◌, arith, Bool, true, false, Option, none, some, List, [], ◌∷◌, ◌++◌,
  if◌then◌else◌, ℤ, Bool-cases, inl, inr,
}
use crossfoot.Midas.{AttributedRound, StateAtBlock, BoundSegment}
use crossfoot.Midas.Feed.{
  Kind, guard_bypass, unguarded_post, guard_inconsistent, guard_at_bound, guard_clamped,
  unguarded_reference_move, override_flag_set, silence, bound_changed, bound_history_inconsistent,
  failed_setter, attribution_gap, Finding, finding_kind, kind_name, FeedReplayInput, Tally,
}
use crossfoot.Midas.Guards.{
  Marked, range_guard, spacing_guard, absolute_guard, reference_guard, clamp_guard, without_guard,
  sampled,
}
use crossfoot.Midas.Events.{event_guard}
use crossfoot.Midas.Rounds.{guard_by, guarded}
use crossfoot.Midas.Bounded.{judge_bound, check_history, state_guard, bounded_guard, is_stale_state}

abbrev pub same_kind : Kind → Kind → Bool
same_kind guard_bypass guard_bypass = true
same_kind unguarded_post unguarded_post = true
same_kind guard_inconsistent guard_inconsistent = true
same_kind guard_at_bound guard_at_bound = true
same_kind guard_clamped guard_clamped = true
same_kind unguarded_reference_move unguarded_reference_move = true
same_kind override_flag_set override_flag_set = true
same_kind silence silence = true
same_kind bound_changed bound_changed = true
same_kind bound_history_inconsistent bound_history_inconsistent = true
same_kind failed_setter failed_setter = true
same_kind attribution_gap attribution_gap = true
same_kind _ _ = false

abbrev pub one_if : Kind → Option Kind → ℕ
one_if kind none = 0
one_if kind (some k) = if same_kind kind k then 1 else 0

abbrev pub one_of : Kind → Kind ⊎ String → ℕ
one_of kind (inl k) = one_if kind (some k)
one_of kind (inr text) = if same_text text (kind_name kind) then 1 else 0

-- The findings of a kind, by the name it has in the report.
unfoldable pub reports : Kind → List Finding → ℕ
reports kind [] = 0
reports kind (finding ∷ findings) = one_of kind (finding_kind finding) + reports kind findings

pub reports-append :
    (kind : Kind) (xs ys : List Finding)
    → reports kind (xs ++ ys) ≡ reports kind xs + reports kind ys
unfolding reports
reports-append kind [] ys = omega arith
reports-append kind (x ∷ xs) ys = omega (arith, reports-append kind xs ys)

pub reports-add :
    (kind : Kind) (xs : List Finding) (x : Finding)
    → reports kind (xs ++ (x ∷ [])) ≡ reports kind xs + one_of kind (finding_kind x)
unfolding reports
reports-add kind [] x = omega arith
reports-add kind (y ∷ xs) x = omega (arith, reports-add kind xs x)

pub record Agrees (t : Tally) : Type 0 where
  pub bypasses : reports guard_bypass t.findings ≡ t.bypass_external + t.bypass_internal
  pub unguarded : reports unguarded_post t.findings ≡ t.unguarded
  pub at_bound : reports guard_at_bound t.findings ≡ t.at_bound
  pub clamped : reports guard_clamped t.findings ≡ t.clamped
  pub flags : reports override_flag_set t.findings ≡ t.override_flags

module _ (input : FeedReplayInput) (previous round : AttributedRound) where
  pub range_guard-Agrees :
      (range : ℤ × ℤ) (m : Marked)
      → Agrees m.0
      → Agrees (range_guard input previous round range m).0
  unfolding range_guard
  range_guard-Agrees range m h = grind (arith, reports-add)

  pub spacing_guard-Agrees :
      (m : Marked) → Agrees m.0 → Agrees (spacing_guard input previous round m).0
  unfolding spacing_guard
  spacing_guard-Agrees m h = grind (arith, reports-add)

  pub absolute_guard-Agrees :
      (state : Option StateAtBlock) (m : Marked)
      → Agrees m.0
      → Agrees (absolute_guard input previous round state m).0
  unfolding absolute_guard
  absolute_guard-Agrees none m h = grind (arith, reports-add)
  absolute_guard-Agrees (some state) m h = grind (arith, reports-add)

  pub reference_guard-Agrees :
      (state : Option StateAtBlock) (m : Marked)
      → Agrees m.0
      → Agrees (reference_guard input previous round state m).0
  unfolding reference_guard
  reference_guard-Agrees none m h = grind (arith, reports-add)
  reference_guard-Agrees (some state) m h = grind (arith, reports-add)

  pub clamp_guard-Agrees :
      (band : ℤ) (m : Marked) → Agrees m.0 → Agrees (clamp_guard input previous round band m).0
  unfolding clamp_guard
  clamp_guard-Agrees band m h = grind (arith, reports-add)

  pub without_guard-Agrees :
      (m : Marked) → Agrees m.0 → Agrees (without_guard input previous round m).0
  unfolding without_guard
  without_guard-Agrees m h = grind (arith, reports-add)

  pub event_guard-Agrees :
      (rules : String → Option ℤ) (m : Marked)
      → Agrees m.0
      → Agrees (event_guard input previous round rules m).0
  unfolding event_guard
  event_guard-Agrees rules m h = grind (arith, reports-add)

  sampled-Agrees :
      (state : StateAtBlock) (t : Tally) → Agrees t → Agrees (sampled input previous round state t)
  sampled-Agrees state t h = record {
    bypasses = h.bypasses;
    unguarded = h.unguarded;
    at_bound = h.at_bound;
    clamped = h.clamped;
    flags = h.flags;
  }

  module _ (segments : List BoundSegment) (first_post_value : ℤ) where
    pub judge_bound-Agrees :
        (state : StateAtBlock) (m : Marked)
        → Agrees m.0
        → Agrees (judge_bound input segments first_post_value previous round state m).0
    unfolding judge_bound
    judge_bound-Agrees state m h = grind (arith, reports-add)

    pub check_history-Agrees :
        (state : StateAtBlock) (t : Tally)
        → Agrees t
        → Agrees (check_history input segments first_post_value previous round state t)
    unfolding check_history
    check_history-Agrees state t h = grind (arith, reports-add)

    pub state_guard-Agrees :
        (state : Option StateAtBlock) (m : Marked)
        → Agrees m.0
        → Agrees (state_guard input segments first_post_value previous round state m).0
    unfolding state_guard
    state_guard-Agrees none m h = grind (arith, reports-add)
    state_guard-Agrees (some state) (t, row) h =
        let held = sampled-Agrees state t h in
        elim (Bool-cases (is_stale_state input segments first_post_value previous round state)) [
          | inl old ↦ rw old (grind (arith, reports-add))
          | inr fresh ↦ rw fresh (judge_bound-Agrees state _ (check_history-Agrees state _ held))
        ]

    pub bounded_guard-Agrees :
        (bound : ℤ) (state : Option StateAtBlock) (m : Marked)
        → Agrees m.0
        → Agrees (bounded_guard input segments first_post_value previous round bound state m).0
    unfolding bounded_guard
    bounded_guard-Agrees bound state m h = grind (arith, state_guard-Agrees)

-- A property of what every guard makes of a round holds of what the feed's guard makes of it.
module _ (input : FeedReplayInput) (segments : List BoundSegment) (first_post_value : ℤ)
    (previous round : AttributedRound) (state : Option StateAtBlock) (m : Marked)
    (P : Marked → Type 0) (ranged : (range : ℤ × ℤ) → P (range_guard input previous round range m))
    (capped : P (absolute_guard input previous round state m))
    (ruled : (rules : String → Option ℤ) → P (event_guard input previous round rules m))
    (referred : P (reference_guard input previous round state m))
    (clamped : (band : ℤ) → P (clamp_guard input previous round band m))
    (free : P (without_guard input previous round m))
    (bounded : (bound : ℤ)
      → P (bounded_guard input segments first_post_value previous round bound state m)) where
  guard_by_cases :
      (min_max : Option (ℤ × ℤ)) (absolute : Bool) (rules : Option (String → Option ℤ))
      (reference : Bool) (band bound : Option ℤ)
      → P (
          guard_by input segments first_post_value previous round state min_max absolute rules
            reference band bound m)
  unfolding guard_by
  guard_by_cases (some range) absolute rules reference band bound = ranged range
  guard_by_cases none true rules reference band bound = capped
  guard_by_cases none false (some rules) reference band bound = ruled rules
  guard_by_cases none false none true band bound = referred
  guard_by_cases none false none false (some band) bound = clamped band
  guard_by_cases none false none false none none = free
  guard_by_cases none false none false none (some bound) = bounded bound

  pub guarded_cases : P (guarded input segments first_post_value previous round state m)
  unfolding guarded
  guarded_cases = guard_by_cases _ _ _ _ _ _
