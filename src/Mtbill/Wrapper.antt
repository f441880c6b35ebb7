-- ===== src/Mtbill/Wrapper.antt =====
-- mtbill.rs, `expected_base18` and `c7_wrapper`: the wrapper against the feed it should scale.
pub mod Scaling
use Prim.Native.String.{String}
use crossfoot.Base.{
  ℕ, ◌+◌, ◌-◌, ◌*◌, ◌/◌, ◌%◌, ◌^◌, Bool, Option, none, some, List, [], ◌∷◌, ◌++◌, ltb, ◌==◌, not,
  if◌then◌else◌, and_then, ℤ, pos, negsuc, ◌-ℤ◌, wrap128, mul128, u128_mod, same_text,
}
use crossfoot.Mtbill.{CheckResult, check_result, verdict_of, observed_deviation, source_stale}

-- `answer / power`, none where that is a division by zero, a panic.
abbrev pub divided : ℕ → ℕ → Option ℕ
divided answer power = if power == 0 then none else some (answer / power)

-- The outer option is the panic. The power and the product are unchecked on `u128`: a power wraps to 0
-- from 146 decimals on.
unfoldable pub expected_base18 : ℤ → ℕ → Option (Option ℕ)
unfolding mul128
expected_base18 (negsuc n) feed_decimals = some none
expected_base18 (pos answer) feed_decimals =
    if answer == 0
    then some (some 0)
    else (if ltb 18 feed_decimals
        then and_then (divided answer (10 ^ (feed_decimals - 18) % u128_mod)) (λ q. some (some q))
        else some (some (mul128 answer (10 ^ (18 - feed_decimals)))))

pub data WrapperViolation : Type 0 where
  wrapper_points_elsewhere : (actual expected : String) → WrapperViolation
  scaling_mismatch : (actual expected : ℕ) (residual : ℤ) → WrapperViolation

-- The detail of a wrapper that returned a value, or of one that did not.
pub data WrapperDetail : Type 0 where
  returned : (value expected : ℕ) (answer : ℤ) (feed_decimals : ℕ) → Option String → WrapperDetail
  reverted : (reason : Option String) (answer : ℤ) → Option String → WrapperDetail

-- `to_lowercase` of the standard library is the parameter `lower`.
module _ (lower : String → String) where
  abbrev pub pointing_violations : Option String → String → List WrapperViolation
  pointing_violations none expected = []
  pointing_violations (some actual) expected =
      if not (same_text (lower actual) (lower expected))
      then wrapper_points_elsewhere actual expected ∷ []
      else []

  abbrev pub scaling_violations : ℕ → ℕ → List WrapperViolation
  scaling_violations actual expected =
      if not (actual == expected)
      then scaling_mismatch actual expected
          (wrap128 (wrap128 (pos actual) -ℤ wrap128 (pos expected)))
        ∷ []
      else []

  abbrev pub judge_wrapper :
      (value expected : Option ℕ) (answer : ℤ) (feed_decimals : ℕ) (aggregator : Option String)
      (expected_aggregator : String) (revert_reason : Option String)
      → CheckResult WrapperDetail WrapperViolation
  judge_wrapper (some actual) (some expected) answer feed_decimals aggregator expected_aggregator
        _ =
      let violations =
        pointing_violations aggregator expected_aggregator ++ scaling_violations actual expected in
      check_result "C7" "wrapper consistency" (verdict_of observed_deviation violations)
        (returned actual expected answer feed_decimals aggregator) violations
  judge_wrapper _ _ answer feed_decimals aggregator expected_aggregator revert_reason =
      check_result "C7" "wrapper consistency" source_stale
        (reverted revert_reason answer aggregator)
        (pointing_violations aggregator expected_aggregator)

  -- None where the scaling panics.
  unfoldable pub c7_wrapper :
      (wrapper_value : Option ℕ) (aggregator_answer : ℤ) (feed_decimals : ℕ)
      (wrapper_aggregator : Option String) (expected_aggregator : String)
      (revert_reason : Option String)
      → Option (CheckResult WrapperDetail WrapperViolation)
  unfolding expected_base18
  c7_wrapper wrapper_value answer feed_decimals wrapper_aggregator expected_aggregator
        revert_reason =
      and_then (expected_base18 answer feed_decimals) λ expected. some (
        judge_wrapper wrapper_value expected answer feed_decimals wrapper_aggregator
          expected_aggregator revert_reason)
