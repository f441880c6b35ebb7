-- ===== src/Midas/OverBound.antt =====
-- midas.rs, `replay_feed`: when a post under a deviation bound is a bypass.
use mathlib.Core.Path.{subst}
use mathlib.Core.Option.{some-injective}
use crossfoot.Base.{
  ◌<ℤ◌, ◌-◌, ◌==◌, sym, ◌≡◌, ◌↔◌, ◌⊎◌, inl, inr, refl, arith, true, false, Option, none, some, ℤ,
  pos, negsuc, ltb_ℤ, ltb→lt, Bool-cases, saturating_sub, List,
}
use crossfoot.Mtbill.{deviation}
use crossfoot.Midas.{
  AttributedRound, StateAtBlock, BoundSegment, PostPath, raw, raw3, safe, safe3, other,
  unattributed, is_unchecked, same_ℤ, or_max, needs_state,
}
use crossfoot.Midas.Feed.{FeedReplayInput, guard_bypass}
use crossfoot.Midas.Guards.{Marked, spacing_guard, series_deviation}
use crossfoot.Midas.Bounded.{bounded_guard, state_guard, judge_bound, is_stale_state}
use crossfoot.Midas.Rounds.{guarded, guard_by, later_round}
use crossfoot.Midas.Agreement.{one_if}
use crossfoot.Midas.Frame.{spacing_guard-Rules}

-- A feed whose guard is a bound on the deviation and nothing else.
pub record IsBounded (input : FeedReplayInput) : Type 0 where
  pub bound : ℤ
  pub bounded : input.bound_at_b1 ≡ some bound
  pub unranged : input.min_max ≡ none
  pub uncapped : input.absolute_guard ≡ false
  pub unruled : input.event_rules ≡ none
  pub unreferred : input.reference_guard ≡ false
  pub unclamped : input.clamp_band ≡ none

-- A post bypasses the bound: it took an unchecked path, the state of the block before it was read and
-- agrees with the series, or the round before is in the same block, and the post deviates from that
-- round by more than the bound of that state. A post on a checked path is no bypass, however far it
-- deviates, and neither is one whose state was not read or disagrees.
abbrev pub IsBypass : FeedReplayInput → (previous round : AttributedRound) → Type 0
IsBypass input previous round =
    ((round.attribution.path ≡ raw) ⊎ (round.attribution.path ≡ raw3))
    × ((state : StateAtBlock) × (input.states (round.event.block - 1) ≡ some state)
        × ((previous.event.block ≡ round.event.block) ⊎ (state.last_answer ≡ previous.event.answer))
        × (state.bound <ℤ or_max (deviation previous.event.answer round.event.answer)))

is_unchecked_lem : (path : PostPath) → (is_unchecked path ≡ true) ↔ ((path ≡ raw) ⊎ (path ≡ raw3))
is_unchecked_lem raw = (λ h. inl refl, λ h. refl)
is_unchecked_lem raw3 = (λ h. inr refl, λ h. refl)
is_unchecked_lem safe = (λ h. cc, λ h. elim h [ inl e ↦ cc | inr e ↦ cc ])
is_unchecked_lem safe3 = (λ h. cc, λ h. elim h [ inl e ↦ cc | inr e ↦ cc ])
is_unchecked_lem other = (λ h. cc, λ h. elim h [ inl e ↦ cc | inr e ↦ cc ])
is_unchecked_lem unattributed = (λ h. cc, λ h. elim h [ inl e ↦ cc | inr e ↦ cc ])

same_ℤ_iff : (a b : ℤ) → (same_ℤ a b ≡ true) ↔ (a ≡ b)
same_ℤ_iff (pos a) (pos b) = (λ h. ground arith, λ h. ground arith)
same_ℤ_iff (pos a) (negsuc b) = (λ h. cc, λ h. cc)
same_ℤ_iff (negsuc a) (pos b) = (λ h. cc, λ h. cc)
same_ℤ_iff (negsuc a) (negsuc b) = (λ h. ground arith, λ h. ground arith)

module _ (input : FeedReplayInput) (segments : List BoundSegment) (first_post_value : ℤ)
    (previous round : AttributedRound) where
  judge_bound-bypass :
      (state : StateAtBlock) (m : Marked)
      → one_if guard_bypass m.1.finding ≡ 0
      → (one_if guard_bypass
            (judge_bound input segments first_post_value previous round state m).1.finding
          ≡ 1)
        ↔ ((is_unchecked round.attribution.path ≡ true)
            × (state.bound <ℤ series_deviation input previous round))
  unfolding judge_bound
  judge_bound-bypass state m h = elim (Bool-cases (is_unchecked round.attribution.path)) [
    | inl u ↦ elim (Bool-cases (ltb_ℤ state.bound dev)) [
      | inl d ↦ rw (u, d) (λ e. (refl, ltb→lt _ _ d), λ k. refl)
      | inr d ↦ rw (u, d) (λ e. absurd (omega arith), λ k. absurd (ground (arith, k.1)))
    ]
    | inr u ↦ elim (Bool-cases (ltb_ℤ state.bound dev)) [
      | inl d ↦ rw (u, d) (λ e. absurd (omega arith), λ k. cc (k.0))
      | inr d ↦ rw (u, d) (λ e. absurd (omega (arith, h)), λ k. cc (k.0))
    ]
  ]
    where
      dev : ℤ
      dev = series_deviation input previous round

  abbrev pub Fresh : StateAtBlock → Type 0
  Fresh state =
      (previous.event.block ≡ round.event.block) ⊎ (state.last_answer ≡ previous.event.answer)

  abbrev pub Over : StateAtBlock → Type 0
  Over state = state.bound <ℤ series_deviation input previous round

  pub is_stale_state-Fresh :
      (state : StateAtBlock)
      → (is_stale_state input segments first_post_value previous round state ≡ false) ↔ Fresh state
  is_stale_state-Fresh state = elim (Bool-cases (previous.event.block == round.event.block)) [
    | inl same ↦ (λ h. inl (ground arith), λ h. ground arith)
    | inr apart ↦ rw apart (
      λ h. inr ((same_ℤ_iff _ _).0 (ground arith)),
      λ h. elim h [ inl e ↦ absurd (ground arith) | inr e ↦ rw ((same_ℤ_iff _ _).1 e) refl ],
    )
  ]

  state_guard-bypass :
      (read : Option StateAtBlock) (m : Marked)
      → one_if guard_bypass m.1.finding ≡ 0
      → (one_if guard_bypass
            (state_guard input segments first_post_value previous round read m).1.finding
          ≡ 1)
        ↔ ((is_unchecked round.attribution.path ≡ true)
            × ((state : StateAtBlock) × (read ≡ some state) × Fresh state × Over state))
  unfolding state_guard
  state_guard-bypass none m h = (λ e. absurd (omega arith), λ (u, (state, e, fresh, over)). cc)
  state_guard-bypass (some state) m h =
      elim (Bool-cases (is_stale_state input segments first_post_value previous round state)) [
        | inl old ↦ rw old (
          λ e. absurd (omega arith),
          λ (u, (state', e, fresh, over)). cc (
            old,
            (is_stale_state-Fresh state).1 (subst Fresh (sym (some-injective _ _ e)) fresh),
          ),
        )
        | inr new ↦ rw new (
          λ e.
              let (u, over) = (judge_bound-bypass state _ h).0 e in
              (u, (state, refl, (is_stale_state-Fresh state).0 new, over)),
          λ (u, (state', e, fresh, over)).
              (judge_bound-bypass state _ h).1 (u, subst Over (sym (some-injective _ _ e)) over),
        )
      ]

  bounded_guard-bypass :
      (bound : ℤ) (read : Option StateAtBlock) (m : Marked)
      → one_if guard_bypass m.1.finding ≡ 0
      → (one_if guard_bypass
            (bounded_guard input segments first_post_value previous round bound read m).1.finding
          ≡ 1)
        ↔ ((is_unchecked round.attribution.path ≡ true)
            × ((state : StateAtBlock) × (read ≡ some state) × Fresh state × Over state))
  unfolding bounded_guard
  bounded_guard-bypass bound read m h = elim (Bool-cases (needs_state bound previous round)) [
    | inl e ↦ rw e (state_guard-bypass read m h)
    | inr e ↦ rw e (λ k. absurd (omega (arith, h)), λ k. absurd (ground (arith, e, k.0)))
  ]

  -- With a bound as its only guard, a later round is marked as a bypass exactly when it is one.
  pub later_round-IsBypass :
      (m : Marked)
      → IsBounded input
      → one_if guard_bypass m.1.finding ≡ 0
      → (one_if guard_bypass
            (later_round input segments first_post_value previous round m).1.finding
          ≡ 1)
        ↔ IsBypass input previous round
  unfolding later_round guarded saturating_sub
  later_round-IsBypass m b h =
      let plain = (spacing_guard-Rules input previous round m h).1 in
      let (forth, back) =
        bounded_guard-bypass b.bound (input.states (round.event.block - 1))
          (spacing_guard input previous round m) plain in
      let (path, unchecked) = is_unchecked_lem round.attribution.path in
      simp (b.unranged, b.uncapped, b.unruled, b.unreferred, b.unclamped, b.bounded, guard_by)
        (λ e. (path (forth e).0, (forth e).1), λ (p, state). back (unchecked p, state))
