-- ===== src/Mtbill/Cadence/Bounds.antt =====
-- mtbill.rs, cadence and monotonicity: when the two checks pass.
use crossfoot.Base.{
  ℕ, ◌+◌, ◌≤◌, ◌<◌, ◌≡◌, ◌↔◌, refl, arith, Option, List, [], ◌∷◌, length, ◌≤ℤ◌, saturating_sub,
  le-lt-cases, le→ltb, lt→ltb, inl, inr,
}
use crossfoot.Mtbill.{Round, consistent, insufficient_window, source_stale, observed_deviation}
use crossfoot.Mtbill.Passing.{verdict_of-nil, verdict_of_sufficient}
use crossfoot.Mtbill.Cadence.{gap_between, stale_intervals, c3_cadence, decreases, c4_monotonicity}

-- Neighbours are related.
abbrev pub Linked {ℓ} : {A : Type 0} → (A → A → Type ℓ) → List A → Type ℓ
Linked R [] = Unit
Linked R (x ∷ []) = Unit
Linked R (x ∷ y ∷ rest) = R x y × Linked R (y ∷ rest)

abbrev pub IsFresh : ℕ → Round → Round → Type 0
IsFresh stale_after previous current = current.updated_at ≤ previous.updated_at + stale_after

abbrev pub IsIncrease : Round → Round → Type 0
IsIncrease previous current = previous.answer ≤ℤ current.answer

stale_intervals_none :
    (stale_after : ℕ) (rounds : List Round)
    → (stale_intervals stale_after rounds ≡ []) ↔ Linked (IsFresh stale_after) rounds
unfolding stale_intervals gap_between saturating_sub
stale_intervals_none stale_after [] = (λ h. tt, λ h. refl)
stale_intervals_none stale_after (previous ∷ []) = (λ h. tt, λ h. refl)
stale_intervals_none stale_after (previous ∷ current ∷ rounds) =
    let (forth, back) = stale_intervals_none stale_after (current ∷ rounds) in
    (λ h. ground (arith, forth), λ (fresh, rest). ground (arith, fresh, back rest))

-- The cadence check is consistent exactly when the window has at least two rounds and no gap
-- between neighbours is longer than the staleness bound, and insufficient exactly when it has fewer
-- rounds.
pub c3_cadence-IsFresh :
    (rounds : List Round) (stale_after : ℕ)
    → (((c3_cadence rounds stale_after).verdict ≡ consistent)
        ↔ ((2 ≤ length rounds) × Linked (IsFresh stale_after) rounds))
      × (((c3_cadence rounds stale_after).verdict ≡ insufficient_window) ↔ (length rounds < 2))
unfolding c3_cadence
c3_cadence-IsFresh rounds stale_after =
    let (forth, back) = stale_intervals_none stale_after rounds in
    let violations = stale_intervals stale_after rounds in
    let (clean, pass) = verdict_of-nil source_stale (λ e. cc) violations in
    let sufficient = verdict_of_sufficient violations in
    elim (le-lt-cases 2 (length rounds)) [
      | inl enough ↦ rw (le→ltb (length rounds) 2 enough) (
        (λ h. (enough, forth (clean h)), λ (_, fresh). pass (back fresh)),
        (λ h. absurd (sufficient h), λ h. absurd (omega arith)),
      )
      | inr few ↦
          rw (lt→ltb (length rounds) 2 few)
            ((λ h. absurd (cc), λ (enough, _). absurd (omega arith)), (λ h. few, λ h. refl))
    ]

decreases_none :
    (launch : Option ℕ) (rounds : List Round)
    → (decreases launch rounds ≡ []) ↔ Linked IsIncrease rounds
unfolding decreases
decreases_none launch [] = (λ h. tt, λ h. refl)
decreases_none launch (previous ∷ []) = (λ h. tt, λ h. refl)
decreases_none launch (previous ∷ current ∷ rounds) =
    let (forth, back) = decreases_none launch (current ∷ rounds) in
    (λ h. ground (arith, forth), λ (up, rest). ground (arith, up, back rest))

-- The monotonicity check is consistent exactly when no answer is below the one before it, the launch rebase included.
pub c4_monotonicity-IsIncrease :
    (rounds : List Round) (launch : Option ℕ)
    → ((c4_monotonicity rounds launch).verdict ≡ consistent) ↔ Linked IsIncrease rounds
unfolding c4_monotonicity
c4_monotonicity-IsIncrease rounds launch =
    let (forth, back) = decreases_none launch rounds in
    let (clean, pass) = verdict_of-nil observed_deviation (λ e. cc) (decreases launch rounds) in
    (λ h. forth (clean h), λ h. pass (back h))
