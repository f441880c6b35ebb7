-- ===== src/Svzchf/Deployment.antt =====
-- svzchf.rs, `find_deployment_block`: where the code begins.
use native.Mathlib.Nat.{pow-suc}
use crossfoot.Base.{
  ℕ, zero, suc, ◌+◌, ◌-◌, ◌/◌, ◌^◌, ◌≤◌, ◌<◌, ◌≡◌, refl, arith, Bool, true, false, none, some, [],
  ◌∷◌, ltb, Bool-cases, inl, inr, le-lt-cases, lt→ltb, le→ltb, ◌∙◌, u64_mod, sub64, sub64-exact,
  Result, ok,
}
use crossfoot.Svzchf.{
  go_on, no_code_at_pinned_block, code_at_genesis, search, find_deployment_block,
}

-- The code begins at block `b`: it has code, and the block before it has none.
abbrev pub BeginsAt : (ℕ → Bool) → ℕ → Type 0
BeginsAt has_code b = (0 < b) × (has_code b ≡ true) × (has_code (b - 1) ≡ false)

positive :
    (has_code : ℕ → Bool) (upper : ℕ) → has_code upper ≡ true → has_code 0 ≡ false → 0 < upper
positive has_code zero e e0 = cc
positive has_code (suc upper) e e0 = omega arith

-- A chain that answers every probe.
abbrev pub answers : (E : Type 0) → (ℕ → Bool) → ℕ → Result E Bool
answers E has_code n = ok (has_code n)

module _ (E : Type 0) (has_code : ℕ → Bool) where
  -- One round of the loop.
  search-step :
      (fuel low high mid : ℕ)
      → low < high
      → high < u64_mod
      → 1 < high - low
      → mid ≡ low + (high - low) / 2
      → search (answers E has_code) (suc fuel) low high
        ≡ go_on
            (answers E has_code mid)
            (search (answers E has_code) fuel low mid)
            (search (answers E has_code) fuel mid high)
  search-step fuel low high mid h word wide e =
      let gap = sub64-exact high low (omega arith) word in
      let half : low + sub64 high low / 2 ≡ mid = omega (arith, gap, e) in
      let test : ltb 1 (sub64 high low) ≡ true = rw gap (lt→ltb 1 (high - low) wide) in
      unfold search in (rw (test, half) refl)

  search-BeginsAt :
      (fuel low high : ℕ)
      → low < high
      → high < u64_mod
      → high - low ≤ 2 ^ fuel
      → has_code low ≡ false
      → has_code high ≡ true
      → (b : ℕ) × (search (answers E has_code) fuel low high ≡ some (ok b))
        × BeginsAt has_code b
        × (b ≤ high)
  search-BeginsAt zero low high h word room no_code code =
      let gap : sub64 high low ≡ 1 = sub64-exact high low (omega arith) word ∙ omega arith in
      let before : high - 1 ≡ low = omega arith in
      (high, unfold search in (rw gap refl), (omega arith, code, rw before no_code), omega arith)
  search-BeginsAt (suc fuel) low high h word room no_code code =
      let gap = sub64-exact high low (omega arith) word in
      let halves = pow-suc 2 fuel in
      let mid = low + (high - low) / 2 in
      elim (le-lt-cases 2 (high - low)) [
        | inr close ↦
            let before : high - 1 ≡ low = omega arith in
            (
              high,
              unfold search in (rw (gap, le→ltb 1 (high - low) (omega arith)) refl),
              (omega arith, code, rw before no_code),
              omega arith,
            )
        | inl wide ↦
            let one_step = search-step fuel low high mid h word wide refl in
            elim (Bool-cases (has_code mid)) [
              | inl present ↦
                  let (b, e, begins, at_most) =
                    search-BeginsAt fuel low mid (omega arith) (omega arith) (omega (arith, halves))
                      no_code present in
                  (b, rw (one_step, present) e, begins, omega (arith, at_most))
              | inr absent ↦
                  let (b, e, begins, at_most) =
                    search-BeginsAt fuel mid high (omega arith) word (omega (arith, halves)) absent
                      code in
                  (b, rw (one_step, absent) e, begins, at_most)
            ]
      ]

  -- The search over a chain that answers every probe: no code at the upper block, or code at block 0,
  -- is reported; otherwise the block that it returns has code, the block before it has none, and
  -- where code is never removed it is the first block with code.
  pub find_deployment_block-BeginsAt :
      (upper : ℕ)
      → upper < u64_mod
      → (has_code upper ≡ false
          → find_deployment_block (answers E has_code) upper
            ≡ some (ok (none, no_code_at_pinned_block ∷ [])))
        × (has_code upper ≡ true
            → has_code 0 ≡ true
            → find_deployment_block (answers E has_code) upper
              ≡ some (ok (none, code_at_genesis ∷ [])))
        × (has_code upper ≡ true
            → has_code 0 ≡ false
            → (b : ℕ) × (find_deployment_block (answers E has_code) upper ≡ some (ok (some b, [])))
              × BeginsAt has_code b
              × (b ≤ upper)
              × (((i j : ℕ) → i ≤ j → has_code i ≡ true → has_code j ≡ true)
                  → (j : ℕ) → j < b
                  → has_code j ≡ false))
  unfolding find_deployment_block
  find_deployment_block-BeginsAt upper word = (
    λ e. rw e refl,
    λ e e0. rw (e, e0) refl,
    λ e e0.
        let (b, found_at, (some_block, code, before), at_most) =
          search-BeginsAt 64 0 upper (positive has_code upper e e0) word (omega (arith, word)) e0
            e in
        (
          b,
          rw (e, e0, found_at) refl,
          (some_block, code, before),
          at_most,
          λ stays j below. elim (Bool-cases (has_code j)) [
            | inr none_there ↦ none_there
            | inl there ↦ let still = stays j (b - 1) (omega arith) there in cc
          ],
        ),
  )
