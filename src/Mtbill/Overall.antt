-- ===== src/Mtbill/Overall.antt =====
-- mtbill.rs, `overall_verdict`: the one verdict of a run from those of its checks.
use Prim.Native.String.{String}
use crossfoot.Base.{
  is_empty, ◌≡◌, ◌↔◌, ◌⊎◌, inl, inr, refl, arith, Bool, true, false, ◌||◌, not, List, [], ◌∷◌, All,
  if◌then◌else◌,
}
use crossfoot.Mtbill.{
  CheckVerdict, consistent, observed_deviation, source_stale, input_gap, insufficient_window,
  informational,
}

-- The two fields of a check that the overall verdict reads.
pub record Check : Type 0 where
  pub id : String
  pub verdict : CheckVerdict

-- `check.verdict == wanted`
abbrev pub same_verdict : CheckVerdict → CheckVerdict → Bool
same_verdict consistent consistent = true
same_verdict observed_deviation observed_deviation = true
same_verdict source_stale source_stale = true
same_verdict input_gap input_gap = true
same_verdict insufficient_window insufficient_window = true
same_verdict informational informational = true
same_verdict _ _ = false

-- The closure `ids`.
unfoldable pub ids : List Check → CheckVerdict → List String
ids [] wanted = []
ids (check ∷ checks) wanted =
    let rest = ids checks wanted in
    if same_verdict check.verdict wanted then check.id ∷ rest else rest

-- `overall` is the verdict that its text names.
pub record Overall : Type 0 where
  pub overall : CheckVerdict
  pub failing_checks : List String
  pub stale_checks : List String
  pub input_gap_checks : List String
  pub insufficient_checks : List String

unfoldable pub overall_verdict : List Check → Bool → Overall
unfolding ids
overall_verdict checks fetch_had_gaps =
    let failing = ids checks observed_deviation in
    let stale = ids checks source_stale in
    let gaps = ids checks input_gap in
    let insufficient = ids checks insufficient_window in
    record {
      overall =
          if fetch_had_gaps || not (is_empty gaps)
          then input_gap
          else (if not (is_empty stale)
              then source_stale
              else (if not (is_empty failing)
                  then observed_deviation
                  else (if not (is_empty insufficient) then insufficient_window else consistent)));
      failing_checks = failing;
      stale_checks = stale;
      input_gap_checks = gaps;
      insufficient_checks = insufficient;
    }

abbrev pub IsPass : Check → Type 0
IsPass c = (c.verdict ≡ consistent) ⊎ (c.verdict ≡ informational)

-- Each of the four lists of ids is empty.
abbrev IsQuiet : List Check → Type 0
IsQuiet checks =
    (is_empty (ids checks input_gap) ≡ true)
    × (is_empty (ids checks source_stale) ≡ true)
    × (is_empty (ids checks observed_deviation) ≡ true)
    × (is_empty (ids checks insufficient_window) ≡ true)

All-pass-IsQuiet : (checks : List Check) → All IsPass checks → IsQuiet checks
unfolding ids
All-pass-IsQuiet [] h = (refl, refl, refl, refl)
All-pass-IsQuiet (c ∷ checks) (inl e, rest) = rw e (All-pass-IsQuiet checks rest)
All-pass-IsQuiet (c ∷ checks) (inr e, rest) = rw e (All-pass-IsQuiet checks rest)

verdict-IsPass :
    (id : String) (verdict : CheckVerdict) (checks : List Check)
    → IsQuiet (record { id = id; verdict = verdict } ∷ checks)
    → IsPass (record { id = id; verdict = verdict }) × IsQuiet checks
unfolding ids
verdict-IsPass id consistent checks h = (inl refl, h)
verdict-IsPass id informational checks h = (inr refl, h)
verdict-IsPass id observed_deviation checks h = ground arith
verdict-IsPass id source_stale checks h = ground arith
verdict-IsPass id input_gap checks h = ground arith
verdict-IsPass id insufficient_window checks h = ground arith

quiet-All-IsPass : (checks : List Check) → IsQuiet checks → All IsPass checks
quiet-All-IsPass [] h = tt
quiet-All-IsPass (c ∷ checks) h =
    let (pass, quiet) = verdict-IsPass c.id c.verdict checks h in
    (pass, quiet-All-IsPass checks quiet)

-- The run is consistent exactly when the fetch had no gaps and every check ran and found nothing:
-- each is consistent, or informational.
pub overall_verdict-IsPass :
    (checks : List Check) (fetch_had_gaps : Bool)
    → ((overall_verdict checks fetch_had_gaps).overall ≡ consistent)
      ↔ ((fetch_had_gaps ≡ false) × All IsPass checks)
unfolding overall_verdict
overall_verdict-IsPass checks fetch_had_gaps =
    let quiet : (overall_verdict checks fetch_had_gaps).overall ≡ consistent → IsQuiet checks =
      λ h. ground arith in
    (
      λ h. (ground arith, quiet-All-IsPass checks (quiet h)),
      λ (no_gaps, pass). ground (arith, no_gaps, All-pass-IsQuiet checks pass),
    )
