-- ===== src/Mtbill/Posting/Rules.antt =====
-- mtbill.rs, `c1_posting_rules`: the check passes exactly when the rounds keep the rules.
use crossfoot.Base.{
  ℕ, append-nil, ◌+◌, ◌-◌, ◌<◌, ◌≡◌, ◌↔◌, refl, arith, Option, none, some, true, List, [], ◌∷◌,
  ◌++◌, All, Bool, ℤ, pos, ◌≤ℤ◌, saturating_sub, Bool-cases, inl, inr,
}
use crossfoot.Mtbill.{
  Era, era_for, Round, FeedParams, deviation, consistent, observed_deviation,
  min_round_spacing_seconds,
}
use crossfoot.Mtbill.Passing.{verdict_of-nil}
use crossfoot.Mtbill.Posting.{
  EraRules, Scan, rules_of, describe_era, bound_violations, deviation_violations,
  spacing_violations, scan_pair, scan_pairs, c1_posting_rules,
}

-- The era has the rule; an unknown era has every rule.
abbrev pub Enforces : (rule : Era → Bool) → Option Era → Type 0
Enforces rule none = Unit
Enforces rule (some era) = rule era ≡ true

checks_deviation-Enforces :
    (era : Option Era)
    → ((rules_of era).checks_deviation ≡ true) ↔ Enforces (λ e. e.enforces_deviation) era
checks_deviation-Enforces none = (λ h. tt, λ h. refl)
checks_deviation-Enforces (some era) = (λ h. h, λ h. h)

checks_spacing-Enforces :
    (era : Option Era)
    → ((rules_of era).checks_spacing ≡ true) ↔ Enforces (λ e. e.enforces_spacing) era
checks_spacing-Enforces none = (λ h. tt, λ h. refl)
checks_spacing-Enforces (some era) = (λ h. h, λ h. h)

module _ (params : FeedParams) (eras : List Era) (round_blocks : ℕ → Option ℕ)
    (launch_rebase_round : Option ℕ) where
  abbrev pub IsWithin : Round → Type 0
  IsWithin round = (params.min_answer ≤ℤ round.answer) × (round.answer ≤ℤ params.max_answer)

  -- The pair could have been posted through the safe path in the era of its second round.
  abbrev pub IsPostable : Round → Round → Type 0
  IsPostable previous current =
      let era = era_for eras (round_blocks current.round_id) in
      ((value : ℤ) × (deviation previous.answer current.answer ≡ some value)
        × (Enforces (λ e. e.enforces_deviation) era → value ≤ℤ params.max_answer_deviation))
      × (Enforces (λ e. e.enforces_spacing) era
          → previous.updated_at + min_round_spacing_seconds < current.updated_at)

  abbrev pub IsSafeSeries : List Round → Type 0
  IsSafeSeries [] = Unit
  IsSafeSeries (previous ∷ []) = Unit
  IsSafeSeries (previous ∷ current ∷ rounds) =
      IsPostable previous current × IsSafeSeries (current ∷ rounds)

  bound_violations-IsWithin :
      (rounds : List Round)
      → (bound_violations params eras round_blocks launch_rebase_round rounds ≡ [])
        ↔ All IsWithin rounds
  unfolding bound_violations
  bound_violations-IsWithin [] = (λ h. tt, λ h. refl)
  bound_violations-IsWithin (round ∷ rounds) =
      let (forth, back) = bound_violations-IsWithin rounds in
      (λ h. ground (arith, forth), λ (within, rest). ground (arith, within, back rest))

  deviation_violations_none :
      (rules : EraRules) (previous current : Round) (value : Option ℤ)
      → (deviation_violations params eras round_blocks launch_rebase_round rules previous current
            value
          ≡ [])
        ↔ ((v : ℤ) × (value ≡ some v)
            × (rules.checks_deviation ≡ true → v ≤ℤ params.max_answer_deviation))
  unfolding deviation_violations
  deviation_violations_none rules previous current none = (λ h. cc, λ (v, h, _). cc)
  deviation_violations_none rules previous current (some value) = (
    λ h. (value, refl, λ enforced. ground (arith, h, enforced)),
    λ (v, e, within).
        let same : v ≡ value = cc in
        elim (Bool-cases rules.checks_deviation) [
          | inl on ↦
              let bound : value ≤ℤ params.max_answer_deviation = rw same at (within on) in
              ground (arith, on, bound)
          | inr off ↦ ground (arith, off)
        ],
  )

  spacing_violations_none :
      (rules : EraRules) (previous current : Round)
      → (spacing_violations params eras round_blocks launch_rebase_round rules previous current
            (current.updated_at - previous.updated_at)
          ≡ [])
        ↔ (rules.checks_spacing ≡ true
            → previous.updated_at + min_round_spacing_seconds < current.updated_at)
  unfolding spacing_violations
  spacing_violations_none rules previous current = (
    λ h enforced. ground (arith, h, enforced),
    λ h. elim (Bool-cases rules.checks_spacing) [
      | inl on ↦ let later = h on in ground (arith, on, later)
      | inr off ↦ ground (arith, off)
    ],
  )

  scan_pair-IsPostable :
      (scan : Scan) (previous current : Round)
      → ((scan_pair params eras round_blocks launch_rebase_round scan previous current).violations
          ≡ [])
        ↔ ((scan.violations ≡ []) × IsPostable previous current)
  unfolding scan_pair describe_era deviation_violations spacing_violations saturating_sub
  scan_pair-IsPostable scan previous current =
      let era = era_for eras (round_blocks current.round_id) in
      let (moved_on, on_moved) = checks_deviation-Enforces era in
      let (spaced_on, on_spaced) = checks_spacing-Enforces era in
      let rules = describe_era params eras round_blocks launch_rebase_round current.round_id in
      let value = deviation previous.answer current.answer in
      let moved =
        deviation_violations params eras round_blocks launch_rebase_round rules previous current
          value in
      let spaced =
        spacing_violations params eras round_blocks launch_rebase_round rules previous current
          (current.updated_at - previous.updated_at) in
      let (split, join) = append-nil (scan.violations ++ moved) spaced in
      let (split', join') = append-nil scan.violations moved in
      let (moves, unmoves) = deviation_violations_none rules previous current value in
      let (spaces, unspaces) = spacing_violations_none rules previous current in
      (
        λ h.
            let (front, gap) = split h in
            let (before, step) = split' front in
            let (value, e, bound) = moves step in
            (before, ((value, e, λ on. bound (on_moved on)), λ on. spaces gap (on_spaced on))),
        λ (before, ((value, e, bound), gap)). join (
          join' (before, unmoves (value, e, λ on. bound (moved_on on))),
          unspaces (λ on. gap (spaced_on on)),
        ),
      )

  scan_pairs-IsSafeSeries :
      (scan : Scan) (rounds : List Round)
      → ((scan_pairs params eras round_blocks launch_rebase_round scan rounds).violations ≡ [])
        ↔ ((scan.violations ≡ []) × IsSafeSeries rounds)
  unfolding scan_pairs
  scan_pairs-IsSafeSeries scan [] = (λ h. (h, tt), λ (h, _). h)
  scan_pairs-IsSafeSeries scan (previous ∷ []) = (λ h. (h, tt), λ (h, _). h)
  scan_pairs-IsSafeSeries scan (previous ∷ current ∷ rounds) =
      let next = scan_pair params eras round_blocks launch_rebase_round scan previous current in
      let (forth, back) = scan_pairs-IsSafeSeries next (current ∷ rounds) in
      let (pair, unpair) = scan_pair-IsPostable scan previous current in
      (
        λ h.
            let (clean, rest) = forth h in
            let (before, postable) = pair clean in (before, (postable, rest)),
        λ (before, (postable, rest)). back (unpair (before, postable), rest),
      )

  -- The posting check is consistent exactly when every answer lies within the bounds and every
  -- round could have been posted after the one before it through the safe path of its era: the
  -- deviation is computable, it is at most the maximum where the era enforces that, and more than
  -- an hour has passed where the era enforces that. What an era enforces are its two flags, and a
  -- round whose block lies in no era is held to both rules.
  pub c1_posting_rules-IsSafeSeries :
      (rounds : List Round)
      → ((c1_posting_rules params eras round_blocks launch_rebase_round rounds).verdict
          ≡ consistent)
        ↔ (All IsWithin rounds × IsSafeSeries rounds)
  unfolding c1_posting_rules
  c1_posting_rules-IsSafeSeries rounds =
      let start : Scan = record {
        violations = bound_violations params eras round_blocks launch_rebase_round rounds;
        deviation_max_seen = pos 0;
        spacing_min_seen = none;
        rules_unknown_rounds = [];
      } in
      let (forth, back) = scan_pairs-IsSafeSeries start rounds in
      let (within, unwithin) = bound_violations-IsWithin rounds in
      let (clean, pass) =
        verdict_of-nil observed_deviation (λ e. cc)
          (scan_pairs params eras round_blocks launch_rebase_round start rounds).violations in
      (
        λ h. let (bounds, series) = forth (clean h) in (within bounds, series),
        λ (bounds, series). pass (back (unwithin bounds, series)),
      )
