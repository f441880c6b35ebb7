-- ===== src/Decision/Clear.antt =====
-- decision.rs, `decide`: what a feed is that the rows of the table have nothing against, said without
-- the code's own tests.
use Prim.Native.String.{String}
use mathlib.Core.Path.{subst}
use crossfoot.Base.{
  ◌≡◌, ◌≢◌, ◌↔◌, ◌⊎◌, inl, inr, refl, ap, arith, true, false, Option, none, some, List, [], ◌∷◌,
  All, Bool-cases, ℤ, ◌≤ℤ◌, ltb_ℤ, same_text, same_text_iff, some_text,
}
use crossfoot.Decision.{Family, posted, derived, UncheckedRound, CrossfootRow, FeedInputs, as_i64}
use crossfoot.Decision.Rows.{
  head_lag, feed_age, result_age, is_lagging, over_bound, other_than_live, stale_limit, within,
  is_fresh, verdict_unless, or_zero_ℤ, result_limit, is_old_result,
}
use crossfoot.Decision.Quiet.{IsClear, IsObserved}

abbrev pub IsAtMost : ℤ → Option ℤ → Type 0
IsAtMost limit computed = (age : ℤ) × (computed ≡ some age) × (age ≤ℤ limit)

-- The index is healthy and its head within the lag.
abbrev pub IsServed : FeedInputs → Type 0
IsServed inputs =
    (inputs.head.has_indexing_errors ≡ false)
    × (head_lag inputs ≤ℤ as_i64 inputs.policy.max_head_lag_seconds)

abbrev pub IsQuiet : FeedInputs → Family → CrossfootRow → Type 0
IsQuiet inputs posted row =
    (inputs.unknown_rounds ≡ [])
    × All (λ (r : UncheckedRound). r.over_bound ≡ false) inputs.unchecked_rounds
    × (row.posting_path ≢ some "ADMIN_GUARD_BYPASSED")
    × (inputs.bound_changes ≡ [])
    × ((row.liveness ≡ none) ⊎ (row.liveness ≡ some "LIVE"))
    × IsAtMost (stale_limit inputs.policy) (feed_age inputs)
    × (row.verdict ≡ "CONSISTENT")
IsQuiet inputs derived row =
    (row.verdict ≡ "MODEL_MATCH")
    × (or_zero_ℤ (result_age inputs) ≤ℤ result_limit inputs.policy)
    × (inputs.rate_changes ≡ [])

not_over : (limit age : ℤ) → (ltb_ℤ limit age ≡ false) ↔ (age ≤ℤ limit)
not_over limit age = (λ h. ground arith, λ h. ground arith)

within-IsAtMost : (limit : ℤ) (age : Option ℤ) → (within limit age ≡ true) ↔ IsAtMost limit age
within-IsAtMost limit none = (λ h. cc, λ (age, e, h). cc)
within-IsAtMost limit (some age) = (
  λ h. (age, refl, ground (arith, not_over limit age)),
  λ (age', e, h).
      let same : age' ≡ age = cc in
      let h' = subst (λ a. a ≤ℤ limit) same h in rw ((not_over limit age).1 h') refl,
)

over_bound-none :
    (rounds : List UncheckedRound)
    → (over_bound rounds ≡ []) ↔ All (λ (r : UncheckedRound). r.over_bound ≡ false) rounds
unfolding over_bound
over_bound-none [] = (λ h. tt, λ h. refl)
over_bound-none (r ∷ rounds) =
    let (split, join) = over_bound-none rounds in
    elim (Bool-cases r.over_bound) [
      | inl over ↦ rw over (λ h. cc, λ (h, _). cc)
      | inr under ↦ rw under (λ h. (refl, split h), λ (_, h). join h)
    ]

some_text_iff :
    (found : Option String) (word : String) → (some_text found word ≡ false) ↔ (found ≢ some word)
some_text_iff none word = (λ h e. cc, λ h. refl)
some_text_iff (some text) word =
    let (same, back) = same_text_iff text word in
    elim (Bool-cases (same_text text word)) [
      | inl is ↦ let e = same is in (λ h. cc, λ h. absurd (h (ap some e)))
      | inr isnt ↦ (λ h e. let e' : text ≡ word = cc in let is = back e' in cc, λ h. isnt)
    ]

live_iff :
    (found : Option String)
    → (other_than_live found ≡ none) ↔ ((found ≡ none) ⊎ (found ≡ some "LIVE"))
live_iff none = (λ h. inl refl, λ h. refl)
live_iff (some text) =
    let (same, back) = same_text_iff text "LIVE" in
    elim (Bool-cases (same_text text "LIVE")) [
      | inl is ↦ rw is (λ h. inr (ap some (same is)), λ h. refl)
      | inr isnt ↦ rw isnt (
        λ h. cc,
        λ h. elim h [ inl e ↦ cc | inr e ↦ let e' : text ≡ "LIVE" = cc in let is = back e' in cc ],
      )
    ]

verdict_iff :
    (row : CrossfootRow) (word : String)
    → (verdict_unless word (some row) ≡ []) ↔ (row.verdict ≡ word)
verdict_iff row word =
    let (same, back) = same_text_iff row.verdict word in
    elim (Bool-cases (same_text row.verdict word)) [
      | inl is ↦ rw is (λ h. same is, λ h. refl)
      | inr isnt ↦ rw isnt (λ h. cc, λ e. let is = back e in cc)
    ]

pub IsServed-iff : (inputs : FeedInputs) → IsObserved inputs ↔ IsServed inputs
unfolding is_lagging
IsServed-iff inputs =
    let (split, join) = not_over (as_i64 inputs.policy.max_head_lag_seconds) (head_lag inputs) in
    (λ (h, l). (h, split l), λ (h, l). (h, join l))

pub IsQuiet-iff :
    (inputs : FeedInputs) (family : Family) (row : CrossfootRow)
    → IsClear inputs family (some row) ↔ IsQuiet inputs family row
unfolding is_fresh is_old_result
IsQuiet-iff inputs posted row =
    let (o, o') = over_bound-none inputs.unchecked_rounds in
    let (p, p') = some_text_iff row.posting_path "ADMIN_GUARD_BYPASSED" in
    let (l, l') = live_iff row.liveness in
    let (w, w') = within-IsAtMost (stale_limit inputs.policy) (feed_age inputs) in
    let (v, v') = verdict_iff row "CONSISTENT" in
    (
      λ (u, over, path, changes, live, fresh, verdict).
          (u, o over, p path, changes, l live, w fresh, v verdict),
      λ (u, over, path, changes, live, fresh, verdict).
          (u, o' over, p' path, changes, l' live, w' fresh, v' verdict),
    )
IsQuiet-iff inputs derived row =
    let (v, v') = verdict_iff row "MODEL_MATCH" in
    let (a, a') = not_over (result_limit inputs.policy) (or_zero_ℤ (result_age inputs)) in
    (
      λ (verdict, age, changes). (v verdict, a age, changes),
      λ (verdict, age, changes). (v' verdict, a' age, changes),
    )
