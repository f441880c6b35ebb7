-- ===== src/Verdict/Comparison.antt =====
-- verdict.rs, the comparison set: what its residuals, `all_equal` and `deviations` say of the
-- compared values.
use crossfoot.Base.{ℕ, ◌≡◌, ◌↔◌, true, refl, List, [], ◌∷◌, arith, pos, ◌+ℤ◌, difference-add}
use crossfoot.Verdict.{
  FieldComparison, compare_field, comparison_set, every_equal, all_equal, unequal, deviations,
}

-- The row states the modelled and the observed value, their difference, and whether it is zero.
abbrev pub IsExact : FieldComparison → Type 0
IsExact f =
    (pos f.observed +ℤ f.residual ≡ pos f.modeled) × ((f.equal ≡ true) ↔ (f.residual ≡ pos 0))

-- A row's residual is the modelled minus the observed value, sign included, and `equal` tells
-- that it is zero.
pub compare_field-IsExact :
    (field : _) (modeled observed : ℕ) → IsExact (compare_field field modeled observed)
unfolding compare_field
compare_field-IsExact field m o = (difference-add m o, (λ h. ground arith, λ h. ground arith))

every_equal-unequal :
    (fields : List FieldComparison)
    → (every_equal fields ≡ true → unequal fields ≡ [])
      × (unequal fields ≡ [] → every_equal fields ≡ true)
unfolding every_equal unequal
every_equal-unequal [] = (λ h. refl, λ h. refl)
every_equal-unequal (f ∷ fs) =
    let (forth, back) = every_equal-unequal fs in (λ h. ground arith, λ h. ground arith)

-- For every list of fields, `all_equal` of their set holds exactly when its `deviations` are empty.
pub all_equal-deviations :
    (fields : List FieldComparison)
    → (all_equal (comparison_set fields) ≡ true) ↔ (deviations (comparison_set fields) ≡ [])
unfolding all_equal deviations
all_equal-deviations fields = every_equal-unequal fields
