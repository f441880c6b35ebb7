-- ===== src/Verdict/Precedence.antt =====
-- verdict.rs, `aggregate`: which verdict comes from which inputs.
use crossfoot.Base.{◌≡◌, ◌↔◌, ◌⊎◌, true, false, arith}
use crossfoot.Verdict.{
  VerdictInputs, aggregate, model_match, observed_deviation, model_inconsistent, source_stale,
  input_gap,
}

-- The five facts that a match asserts.
abbrev pub IsClean : VerdictInputs → Type 0
IsClean i =
    (i.input_gap ≡ false)
    × (i.stale_read ≡ false)
    × (i.model_paths_agree ≡ true)
    × (i.all_equal ≡ true)
    × (i.interest_series_clean ≡ true)

-- The inputs were observed and the two model paths agree.
abbrev pub IsComparable : VerdictInputs → Type 0
IsComparable i = (i.input_gap ≡ false) × (i.stale_read ≡ false) × (i.model_paths_agree ≡ true)

-- The verdict is a match exactly when no input is missing, no read was stale, the model paths
-- agree, every compared value is equal, and the interest series is clean.
pub aggregate-IsClean : (i : VerdictInputs) → (aggregate i ≡ model_match) ↔ IsClean i
unfolding aggregate
aggregate-IsClean i = (λ h. ground arith, λ h. ground arith)

-- The verdict blames the chain exactly when the inputs were observed, the model agrees with itself,
-- and some compared value or recognised interest differs.
pub aggregate-deviation :
    (i : VerdictInputs)
    → (aggregate i ≡ observed_deviation)
      ↔ (IsComparable i × ((i.all_equal ≡ false) ⊎ (i.interest_series_clean ≡ false)))
unfolding aggregate
aggregate-deviation i = (λ h. ground arith, λ h. ground arith)

-- The three verdicts that say nothing of the chain, in their order of precedence.
pub aggregate-precedence :
    (i : VerdictInputs)
    → ((aggregate i ≡ input_gap) ↔ (i.input_gap ≡ true))
      × ((aggregate i ≡ source_stale) ↔ ((i.input_gap ≡ false) × (i.stale_read ≡ true)))
      × ((aggregate i ≡ model_inconsistent)
          ↔ ((i.input_gap ≡ false) × (i.stale_read ≡ false) × (i.model_paths_agree ≡ false)))
unfolding aggregate
aggregate-precedence i = (
  (λ h. ground arith, λ h. ground arith),
  (λ h. ground arith, λ h. ground arith),
  (λ h. ground arith, λ h. ground arith),
)
