-- ===== src/Mtbill/Wrapper/Scaling.antt =====
-- mtbill.rs, `c7_wrapper`: when the wrapper's value is the feed's answer in 18 decimals.
use Prim.Native.String.{String}
use native.Mathlib.Nat.{zero-mul, zero-div, pow-le-pow_right, mod-eq_of_lt}
use crossfoot.Base.{
  ℕ, append-nil, zero, suc, ◌-◌, ◌*◌, ◌/◌, ◌^◌, ◌≤◌, ◌<◌, ◌≡◌, ◌↔◌, ap, sym, refl, arith, true,
  Option, none, some, [], ◌++◌, ℤ, pos, negsuc, mul128-exact, u128_mod, same_text, le→ltb, lt→ltb,
  Bool-cases, le-lt-cases, inl, inr, ==-false,
}
use crossfoot.Mtbill.{CheckResult, consistent, observed_deviation}
use crossfoot.Mtbill.Passing.{verdict_of-nil}
use crossfoot.Mtbill.Wrapper.{
  WrapperDetail, WrapperViolation, expected_base18, pointing_violations, scaling_violations,
  judge_wrapper, c7_wrapper,
}

-- The answer in 18 decimals: with the power of ten that is missing, or without the one in excess,
-- rounded down.
abbrev pub scaled : (answer feed_decimals : ℕ) → ℕ
scaled answer feed_decimals = answer * 10 ^ (18 - feed_decimals) / 10 ^ (feed_decimals - 18)

-- The power of ten and the scaled answer fit in a `u128`.
abbrev pub Fits : ℤ → ℕ → Type 0
Fits (pos answer) feed_decimals =
    (feed_decimals ≤ 56) × (answer * 10 ^ (18 - feed_decimals) < u128_mod)
Fits (negsuc n) feed_decimals = Unit

-- The scaled answer is the value; a negative answer has none.
abbrev pub ScalesTo : ℤ → ℕ → ℕ → Type 0
ScalesTo (pos answer) feed_decimals value = value ≡ scaled answer feed_decimals
ScalesTo (negsuc n) feed_decimals value = ⊥

power_fits : (k : ℕ) → k ≤ 38 → (0 < 10 ^ k) × (10 ^ k < u128_mod)
power_fits k h =
    let below = pow-le-pow_right {n = 10} (omega arith) {i = k} {j = 38} h in
    let above = pow-le-pow_right {n = 10} (omega arith) {i = 0} {j = k} (omega arith) in
    (omega (arith, above), omega (arith, below))

scaled_small :
    (answer feed_decimals : ℕ)
    → feed_decimals ≤ 18
    → scaled answer feed_decimals ≡ answer * 10 ^ (18 - feed_decimals)
scaled_small answer feed_decimals h =
    let none_over : feed_decimals - 18 ≡ 0 = omega arith in rw none_over (omega arith)

scaled_large :
    (answer feed_decimals : ℕ)
    → 18 < feed_decimals
    → scaled answer feed_decimals ≡ answer / 10 ^ (feed_decimals - 18)
scaled_large answer feed_decimals h =
    let none_missing : 18 - feed_decimals ≡ 0 = omega arith in
    let same : answer * 1 ≡ answer = omega arith in rw (none_missing, same) refl

scaled_zero : (feed_decimals : ℕ) → scaled 0 feed_decimals ≡ 0
scaled_zero feed_decimals =
    rw (zero-mul (10 ^ (18 - feed_decimals))) (zero-div (10 ^ (feed_decimals - 18)))

-- Where the numbers fit, the scaling neither wraps nor panics.
expected_base18-exact :
    (answer feed_decimals : ℕ)
    → Fits (pos answer) feed_decimals
    → expected_base18 (pos answer) feed_decimals ≡ some (some (scaled answer feed_decimals))
unfolding expected_base18
expected_base18-exact zero feed_decimals h = rw (scaled_zero feed_decimals) refl
expected_base18-exact (suc answer) feed_decimals (small, fits) =
    let nonzero = ==-false (suc answer) 0 (λ e. omega (arith, e)) in
    elim (le-lt-cases feed_decimals 18) [
      | inl few ↦
          rw
            (
              nonzero,
              le→ltb 18 feed_decimals few,
              mul128-exact (suc answer) (10 ^ (18 - feed_decimals)) fits,
              scaled_small (suc answer) feed_decimals few,
            )
            refl
      | inr many ↦
          let (positive, below) = power_fits (feed_decimals - 18) (omega arith) in
          rw
            (
              nonzero,
              lt→ltb 18 feed_decimals many,
              mod-eq_of_lt below,
              ==-false (10 ^ (feed_decimals - 18)) 0 (λ e. omega (arith, e, positive)),
              scaled_large (suc answer) feed_decimals many,
            )
            refl
    ]

module _ (lower : String → String) where
  -- The wrapper reports no aggregator, or one that is the expected one but for its case.
  abbrev pub IsPointed : Option String → String → Type 0
  IsPointed none expected = Unit
  IsPointed (some actual) expected = same_text (lower actual) (lower expected) ≡ true

  pointing_violations-IsPointed :
      (aggregator : Option String) (expected : String)
      → (pointing_violations lower aggregator expected ≡ []) ↔ IsPointed aggregator expected
  pointing_violations-IsPointed none expected = (λ h. tt, λ h. refl)
  pointing_violations-IsPointed (some actual) expected =
      elim (Bool-cases (same_text (lower actual) (lower expected))) [
        | inl same ↦ rw same (λ h. refl, λ h. refl)
        | inr other ↦ rw other (λ h. absurd (cc), λ h. absurd (cc))
      ]

  scaling_violations-nil :
      (actual expected : ℕ) → (scaling_violations lower actual expected ≡ []) ↔ (actual ≡ expected)
  scaling_violations-nil actual expected = (λ h. ground arith, λ h. ground arith)

  abbrev IsScaled : Option ℕ → Option ℕ → Type 0
  IsScaled value expected = (v : ℕ) × (value ≡ some v) × (expected ≡ some v)

  judge_wrapper-IsScaled :
      (value expected : Option ℕ) (answer : ℤ) (feed_decimals : ℕ) (aggregator : Option String)
      (expected_aggregator : String) (reason : Option String)
      → ((judge_wrapper lower value expected answer feed_decimals aggregator expected_aggregator
            reason).verdict
          ≡ consistent)
        ↔ (IsScaled value expected × IsPointed aggregator expected_aggregator)
  judge_wrapper-IsScaled none expected _ _ _ _ _ = (λ h. cc, λ ((v, h, _), _). cc)
  judge_wrapper-IsScaled (some a) none _ _ _ _ _ = (λ h. cc, λ ((v, _, h), _). cc)
  judge_wrapper-IsScaled (some a) (some e) answer decimals aggregator expected reason =
      let (clean, pass) =
        verdict_of-nil observed_deviation (λ h. cc)
          (pointing_violations lower aggregator expected ++ scaling_violations lower a e) in
      let (split, join) =
        append-nil (pointing_violations lower aggregator expected) (scaling_violations lower a e) in
      let (points, unpoints) = pointing_violations-IsPointed aggregator expected in
      let (equal, unequal) = scaling_violations-nil a e in
      (
        λ h.
            let (pointing, scaling) = split (clean h) in
            let same = equal scaling in ((a, refl, cc), points pointing),
        λ ((v, is_a, is_e), pointed).
            let same : a ≡ e = cc in pass (join (unpoints pointed, unequal same)),
      )

  -- The wrapper returned the answer in 18 decimals.
  abbrev pub IsReturned : Option ℕ → ℤ → ℕ → Type 0
  IsReturned value answer feed_decimals =
      (v : ℕ) × (value ≡ some v) × ScalesTo answer feed_decimals v

  -- The check returns, and is consistent exactly when the condition holds.
  abbrev pub IsConsistent : Option (CheckResult WrapperDetail WrapperViolation) → Type 0 → Type 0
  IsConsistent computed condition =
      (result : CheckResult WrapperDetail WrapperViolation) × (computed ≡ some result)
      × ((result.verdict ≡ consistent) ↔ condition)

  -- Where the answer in 18 decimals, and the power of ten it is divided by, fit in a u128, the wrapper
  -- check does not panic, and it is consistent exactly when the wrapper returned the answer in 18
  -- decimals, rounded down where the feed has more, and reports no aggregator other than the expected
  -- one but for its case. So with a missing value or a negative answer it is never consistent.
  pub c7_wrapper-IsReturned :
      (value : Option ℕ) (answer : ℤ) (feed_decimals : ℕ) (aggregator : Option String)
      (expected_aggregator : String) (reason : Option String)
      → Fits answer feed_decimals
      → IsConsistent
          (c7_wrapper lower value answer feed_decimals aggregator expected_aggregator reason)
          (IsReturned value answer feed_decimals × IsPointed aggregator expected_aggregator)
  unfolding c7_wrapper expected_base18
  c7_wrapper-IsReturned value (negsuc n) feed_decimals aggregator expected_aggregator reason fits =
      let (forth, back) =
        judge_wrapper-IsScaled value none (negsuc n) feed_decimals aggregator expected_aggregator
          reason in
      (
        _,
        refl,
        (λ h. let ((v, _, e), _) = forth h in absurd (cc), λ ((v, _, never), _). absurd never),
      )
  c7_wrapper-IsReturned value (pos answer) feed_decimals aggregator expected_aggregator reason
        fits =
      let (forth, back) =
        judge_wrapper-IsScaled value (some (scaled answer feed_decimals)) (pos answer) feed_decimals
          aggregator expected_aggregator reason in
      (
        judge_wrapper lower value (some (scaled answer feed_decimals)) (pos answer) feed_decimals
            aggregator expected_aggregator reason,
        rw (expected_base18-exact answer feed_decimals fits) refl,
        (
          λ h.
              let ((v, e, s), pointed) = forth h in
              let same : v ≡ scaled answer feed_decimals = cc in ((v, e, same), pointed),
          λ ((v, e, s), pointed). back ((v, e, ap some (sym s)), pointed),
        ),
      )
