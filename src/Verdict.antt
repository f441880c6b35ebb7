-- ===== src/Verdict.antt =====
-- The run verdict and the comparison with the chain: cli/src/model/verdict.rs. A decimal string of
-- the source is the number that it writes, and a field's name is its text.
pub mod Precedence
pub mod Comparison
mod Tests
use Prim.Native.String.{String}
use crossfoot.Base.{
  ℕ, ◌-◌, ◌≡◌, Bool, true, not, ◌&&◌, List, [], ◌∷◌, Option, none, some, leb, ◌==◌, if◌then◌else◌,
  ℤ, pos, negsuc,
}

pub data Verdict : Type 0 where
  model_match observed_deviation model_inconsistent source_stale input_gap : Verdict

unfoldable pub as_str : Verdict → String
as_str model_match = "MODEL_MATCH"
as_str observed_deviation = "OBSERVED_DEVIATION"
as_str model_inconsistent = "MODEL_INCONSISTENT"
as_str source_stale = "SOURCE_STALE"
as_str input_gap = "INPUT_GAP"

pub record VerdictInputs : Type 0 where
  pub input_gap : Bool
  pub stale_read : Bool
  pub model_paths_agree : Bool
  pub all_equal : Bool
  pub interest_series_clean : Bool

unfoldable pub aggregate : VerdictInputs → Verdict
aggregate inputs =
    if inputs.input_gap
    then input_gap
    else (if inputs.stale_read
        then source_stale
        else (if not inputs.model_paths_agree
            then model_inconsistent
            else (if inputs.all_equal && inputs.interest_series_clean
                then model_match
                else observed_deviation)))

pub record FieldComparison : Type 0 where
  pub field : String
  pub modeled : ℕ
  pub observed : ℕ
  pub residual : ℤ
  pub equal : Bool

-- The branch without a minus sign is taken for equal values too; the other writes a positive
-- number behind its sign.
unfoldable pub compare_field : String → ℕ → ℕ → FieldComparison
compare_field field modeled observed = record {
  field = field;
  modeled = modeled;
  observed = observed;
  residual =
      if leb observed modeled then pos (modeled - observed) else negsuc (observed - modeled - 1);
  equal = modeled == observed;
}

pub record ComparisonSet : Type 0 where
  pub check_class : String
  pub tolerance : String
  pub fields : List FieldComparison

abbrev pub comparison_set : List FieldComparison → ComparisonSet
comparison_set fields = record {
  check_class = "full recomputation";
  tolerance = "zero, to the wei";
  fields = fields;
}

-- `fields.iter().all(|field| field.equal)`
unfoldable pub every_equal : List FieldComparison → Bool
every_equal [] = true
every_equal (f ∷ fs) = f.equal && every_equal fs

unfoldable pub all_equal : ComparisonSet → Bool
unfolding every_equal
all_equal set = every_equal set.fields

-- `fields.iter().filter(|field| !field.equal)`
unfoldable pub unequal : List FieldComparison → List FieldComparison
unequal [] = []
unequal (f ∷ fs) = let rest = unequal fs in if not f.equal then f ∷ rest else rest

unfoldable pub deviations : ComparisonSet → List FieldComparison
unfolding unequal
deviations set = unequal set.fields

-- The first entry of the mismatches, whatever an entry is.
unfoldable pub first_divergence {ℓ} : {A : Type ℓ} → List A → Option A
first_divergence [] = none
first_divergence (mismatch ∷ _) = some mismatch
