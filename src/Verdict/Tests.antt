-- ===== src/Verdict/Tests.antt =====
-- The clean inputs and the residuals of verdict.rs's tests.
use crossfoot.Base.{◌≡◌, refl, true, false, List, [], ◌∷◌}
use crossfoot.Verdict.{VerdictInputs, aggregate, model_match, FieldComparison, compare_field}
use crossfoot.Verdict.Precedence.{aggregate-IsClean}

abbrev clean : VerdictInputs
clean = record {
  input_gap = false;
  stale_read = false;
  model_paths_agree = true;
  all_equal = true;
  interest_series_clean = true;
}

abbrev residual : VerdictInputs
residual = record clean { all_equal = false }

abbrev disagreement : VerdictInputs
disagreement = record residual { model_paths_agree = false }

abbrev fields : List FieldComparison
unfolding compare_field
fields = compare_field "saved" 100 100 ∷ compare_field "price" 100 105 ∷ []

aggregate-IsClean_example : aggregate clean ≡ model_match
aggregate-IsClean_example = (aggregate-IsClean clean).1 (refl, refl, refl, refl, refl)
