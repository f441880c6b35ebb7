-- ===== src/Decision/Rows.antt =====
-- decision.rs, `decide`: the rows of the table, each with the reasons that it pushes. `none` is the
-- panic of an `expect`.
use Prim.Native.String.{String}
use crossfoot.Base.{
  is_empty, ℕ, ◌*◌, ◌%◌, Bool, true, false, not, Option, none, some, List, [], ◌∷◌, ◌++◌,
  if◌then◌else◌, ℤ, pos, ◌-ℤ◌, ltb_ℤ, wrap64, u64_mod, same_text, some_text,
}
use crossfoot.Base.Options.{◌>>=◌}
use crossfoot.Decision.{
  Family, posted, derived, Policy, UncheckedRound, CrossfootRow, FeedInputs, as_i64, sub_i64,
}

unfoldable pub head_lag : FeedInputs → ℤ
unfolding ◌-ℤ◌ wrap64
head_lag inputs = sub_i64 inputs.now inputs.head.timestamp

abbrev pub age_of : ℤ → Option ℤ → Option ℤ
age_of pinned none = none
age_of pinned (some t) = some (sub_i64 pinned t)

unfoldable pub feed_age : FeedInputs → Option ℤ
unfolding ◌-ℤ◌ wrap64
feed_age inputs = age_of inputs.pinned.timestamp inputs.feed.latest_updated_at

abbrev pub blocks_behind : ℕ → Option CrossfootRow → Option ℤ
blocks_behind number none = none
blocks_behind number (some row) = some (sub_i64 (as_i64 number) (as_i64 row.block))

unfoldable pub result_age : FeedInputs → Option ℤ
unfolding ◌-ℤ◌ wrap64
result_age inputs = blocks_behind inputs.pinned.number inputs.row

-- A row of the table that pushes one word where its condition holds.
abbrev pub reason_if : Bool → String → List String
reason_if condition word = if condition then word ∷ [] else []

-- Rows 1 to 3.
unfoldable pub indexing_errors : FeedInputs → List String
indexing_errors inputs = reason_if inputs.head.has_indexing_errors "INDEXING_ERRORS"

unfoldable pub is_lagging : FeedInputs → Bool
unfolding head_lag
is_lagging inputs = ltb_ℤ (as_i64 inputs.policy.max_head_lag_seconds) (head_lag inputs)

unfoldable pub subgraph_stale : FeedInputs → List String
subgraph_stale inputs = reason_if (is_lagging inputs) "SUBGRAPH_STALE"

abbrev pub is_none {ℓ} : {A : Type ℓ} → Option A → Bool
is_none none = true
is_none (some a) = false

unfoldable pub no_result : FeedInputs → List String
no_result inputs = reason_if (is_none inputs.row) "NO_CROSSFOOT_RESULT"

-- `unchecked_rounds.iter().filter(|r| r.over_bound)`
unfoldable pub over_bound : List UncheckedRound → List UncheckedRound
over_bound [] = []
over_bound (r ∷ rs) = let rest = over_bound rs in if r.over_bound then r ∷ rest else rest

-- `row.and_then(|r| r.posting_path.as_deref()) == Some(word)`
abbrev pub has_path : Option CrossfootRow → String → Bool
has_path none word = false
has_path (some row) word = some_text row.posting_path word

-- Row 4.
unfoldable pub path_not_attributable : FeedInputs → List String
path_not_attributable inputs =
    reason_if (not (is_empty inputs.unknown_rounds)) "PATH_NOT_ATTRIBUTABLE"

-- `row.expect(…)`
abbrev pub expect_row : Option CrossfootRow → List String → Option (List String)
expect_row none words = none
expect_row (some row) words = some words

-- Row 5.
unfoldable pub guard_bypassed : FeedInputs → Option (List String)
unfolding over_bound
guard_bypassed inputs =
    if not (is_empty (over_bound inputs.unchecked_rounds))
    then some ("ADMIN_GUARD_BYPASSED" ∷ [])
    else (if has_path inputs.row "ADMIN_GUARD_BYPASSED"
        then expect_row inputs.row ("ADMIN_GUARD_BYPASSED" ∷ [])
        else some [])

-- Row 6.
unfoldable pub bound_changed : FeedInputs → List String
bound_changed inputs = reason_if (not (is_empty inputs.bound_changes)) "BOUND_CHANGED"

-- `row.and_then(|r| r.liveness.as_deref()).filter(|w| *w != "LIVE")`
abbrev pub other_than_live : Option String → Option String
other_than_live none = none
other_than_live (some word) = if same_text word "LIVE" then none else some word

abbrev pub liveness_word : Option CrossfootRow → Option String
liveness_word none = none
liveness_word (some row) = other_than_live row.liveness

-- The product is an unchecked `u64` one.
abbrev pub stale_limit : Policy → ℤ
stale_limit policy = as_i64 ((policy.stale_after_days * 86_400) % u64_mod)

abbrev pub within : ℤ → Option ℤ → Bool
within limit none = false
within limit (some age) = not (ltb_ℤ limit age)

unfoldable pub is_fresh : FeedInputs → Bool
unfolding feed_age wrap64
is_fresh inputs = within (stale_limit inputs.policy) (feed_age inputs)

abbrev pub stale_or_word : Option CrossfootRow → Bool → Option String → Option (List String)
stale_or_word row fresh (some word) = expect_row row (word ∷ [])
stale_or_word row fresh none = some (reason_if (not fresh) "STALE")

-- Row 7.
unfoldable pub not_live : FeedInputs → Option (List String)
not_live inputs = stale_or_word inputs.row (is_fresh inputs) (liveness_word inputs.row)

-- `row.filter(|r| r.verdict != word)`, and its verdict.
abbrev pub verdict_unless : String → Option CrossfootRow → List String
verdict_unless word none = []
verdict_unless word (some row) = if same_text row.verdict word then [] else row.verdict ∷ []

-- Row 8, which only counts where nothing matched before it.
unfoldable pub not_consistent : FeedInputs → List String → List String
not_consistent inputs before =
    if is_empty before then verdict_unless "CONSISTENT" inputs.row else []

unfoldable pub posted_rows : FeedInputs → List String → Option (List String)
posted_rows inputs before = do
  bypassed ← guard_bypassed inputs
  dead ← not_live inputs
  some (
      let reasons =
        (((before ++ path_not_attributable inputs) ++ bypassed) ++ bound_changed inputs) ++ dead in
      reasons ++ not_consistent inputs reasons)

-- `result_age.unwrap_or(0)`
abbrev pub or_zero_ℤ : Option ℤ → ℤ
or_zero_ℤ none = pos 0
or_zero_ℤ (some age) = age

abbrev pub result_limit : Policy → ℤ
result_limit policy = as_i64 ((policy.max_result_age_days * 7_200) % u64_mod)

unfoldable pub is_old_result : FeedInputs → Bool
unfolding result_age wrap64
is_old_result inputs = ltb_ℤ (result_limit inputs.policy) (or_zero_ℤ (result_age inputs))

-- Rows 9 and 10, of a feed with a row.
abbrev pub rows_of_result : FeedInputs → Option CrossfootRow → List String
rows_of_result inputs none = []
rows_of_result inputs (some row) =
    (verdict_unless "MODEL_MATCH" (some row) ++ reason_if (is_old_result inputs) "RESULT_STALE")
    ++ reason_if (not (is_empty inputs.rate_changes)) "RATE_CHANGED_AFTER_WINDOW"

unfoldable pub derived_rows : FeedInputs → List String → Option (List String)
derived_rows inputs before = some (before ++ rows_of_result inputs inputs.row)

unfoldable pub family_rows : FeedInputs → Family → List String → Option (List String)
unfolding posted_rows derived_rows
family_rows inputs posted before = posted_rows inputs before
family_rows inputs derived before = derived_rows inputs before

-- Rows 1 to 10.
unfoldable pub table_rows : FeedInputs → Option (List String)
unfolding indexing_errors subgraph_stale no_result family_rows
table_rows inputs =
    family_rows inputs inputs.feed.family
      ((indexing_errors inputs ++ subgraph_stale inputs) ++ no_result inputs)
