-- ===== src/Decision/Quiet.antt =====
-- decision.rs, `decide`: each row that expects a Crossfoot row has one, and when it pushes nothing.
use Prim.Native.String.{String}
use crossfoot.Base.{
  is_empty, ◌≡◌, ◌↔◌, refl, arith, Bool, true, false, not, Option, none, some, List, [], ◌∷◌, ◌++◌,
  append-nil, if◌then◌else◌, Bool-cases, inl, inr,
}
use mathlib.Core.Path.{subst, sym}
use crossfoot.Decision.{CrossfootRow, FeedInputs, Family, posted, derived}
use crossfoot.Decision.Rows.{
  reason_if, has_path, expect_row, over_bound, guard_bypassed, stale_or_word, liveness_word,
  is_fresh, not_live, not_consistent, verdict_unless, path_not_attributable, bound_changed,
  posted_rows, derived_rows, rows_of_result, is_old_result, family_rows, table_rows,
  indexing_errors, subgraph_stale, no_result, is_lagging, is_none,
}

pub reason_if-nil : (b : Bool) (word : String) → (reason_if b word ≡ []) ↔ (b ≡ false)
reason_if-nil b word = (λ h. ground arith, λ h. ground arith)

pub is_empty-nil : {A : Type 0} (xs : List A) → (not (is_empty xs) ≡ false) ↔ (xs ≡ [])
is_empty-nil [] = (λ h. refl, λ h. refl)
is_empty-nil (x ∷ xs) = (λ h. ground arith, λ h. cc)

-- A list of reasons that is computed without a panic, and when it is empty.
abbrev pub Pushes : Option (List String) → Type 0 → Type 0
Pushes computed Quiet = (words : List String) × (computed ≡ some words) × ((words ≡ []) ↔ Quiet)

bypass_words :
    (found : Bool) (row : Option CrossfootRow) (word : String)
    → Pushes
        (if found
          then some (word ∷ [])
          else (if has_path row word then expect_row row (word ∷ []) else some []))
        ((found ≡ false) × (has_path row word ≡ false))
bypass_words true row word = (word ∷ [], refl, (λ h. cc, λ (h, _). ground arith))
bypass_words false none word = ([], refl, (λ h. (refl, refl), λ h. refl))
bypass_words false (some row) word = elim (Bool-cases (has_path (some row) word)) [
  | inl named ↦ rw named (word ∷ [], refl, (λ h. cc, λ (_, h). ground arith))
  | inr other ↦ rw other ([], refl, (λ h. (refl, refl), λ h. refl))
]

live_words :
    (row : Option CrossfootRow) (fresh : Bool)
    → Pushes
        (stale_or_word row fresh (liveness_word row))
        ((liveness_word row ≡ none) × (fresh ≡ true))
live_words none true = ([], refl, (λ h. (refl, refl), λ h. refl))
live_words none false = ("STALE" ∷ [], refl, (λ h. cc, λ (_, h). ground arith))
live_words (some row) fresh =
    elim (liveness_word (some row))
      as (λ w. Pushes (stale_or_word (some row) fresh w) ((w ≡ none) × (fresh ≡ true))) [
        | some word ↦ (word ∷ [], refl, (λ h. cc, λ (h, _). cc))
        | none ↦ stale_words fresh
      ]
  where
    stale_words :
        (fresh : Bool)
        → Pushes
            (some (reason_if (not fresh) "STALE"))
            ((◌≡◌ {A = Option String} none none) × (fresh ≡ true))
    stale_words true = ([], refl, (λ h. (refl, refl), λ h. refl))
    stale_words false = ("STALE" ∷ [], refl, (λ h. cc, λ (_, h). ground arith))

quiet_verdict :
    (inputs : FeedInputs) (before : List String)
    → ((before ++ not_consistent inputs before) ≡ [])
      ↔ ((before ≡ []) × (verdict_unless "CONSISTENT" inputs.row ≡ []))
unfolding not_consistent
quiet_verdict inputs [] = (λ h. (refl, h), λ (_, h). h)
quiet_verdict inputs (word ∷ before) = (λ h. cc, λ (h, _). cc)

-- Nothing that the rows of a posted feed look for.
abbrev pub IsClearPosted : FeedInputs → Option CrossfootRow → Type 0
IsClearPosted inputs row =
    (inputs.unknown_rounds ≡ [])
    × (over_bound inputs.unchecked_rounds ≡ [])
    × (has_path row "ADMIN_GUARD_BYPASSED" ≡ false)
    × (inputs.bound_changes ≡ [])
    × (liveness_word row ≡ none)
    × (is_fresh inputs ≡ true)
    × (verdict_unless "CONSISTENT" row ≡ [])

posted_words :
    (inputs : FeedInputs) (before : List String)
    → Pushes (posted_rows inputs before) ((before ≡ []) × IsClearPosted inputs inputs.row)
unfolding posted_rows guard_bypassed bound_changed path_not_attributable not_live
posted_words inputs before =
    let found = not (is_empty (over_bound inputs.unchecked_rounds)) in
    let (bypassed, bypass_eq, (bypass_quiet, bypass_back)) =
      bypass_words found inputs.row "ADMIN_GUARD_BYPASSED" in
    let (dead, dead_eq, (dead_quiet, dead_back)) = live_words inputs.row (is_fresh inputs) in
    let unknown = path_not_attributable inputs in
    let changed = bound_changed inputs in
    let reasons = (((before ++ unknown) ++ bypassed) ++ changed) ++ dead in
    let (verdict_split, verdict_join) = quiet_verdict inputs reasons in
    let (s4, j4) = append-nil (((before ++ unknown) ++ bypassed) ++ changed) dead in
    let (s3, j3) = append-nil ((before ++ unknown) ++ bypassed) changed in
    let (s2, j2) = append-nil (before ++ unknown) bypassed in
    let (s1, j1) = append-nil before unknown in
    let (no_unknown, unknown_back) =
      reason_if-nil (not (is_empty inputs.unknown_rounds)) "PATH_NOT_ATTRIBUTABLE" in
    let (no_change, change_back) =
      reason_if-nil (not (is_empty inputs.bound_changes)) "BOUND_CHANGED" in
    let (unknown_nil, nil_unknown) = is_empty-nil inputs.unknown_rounds in
    let (over_nil, nil_over) = is_empty-nil (over_bound inputs.unchecked_rounds) in
    let (change_nil, nil_change) = is_empty-nil inputs.bound_changes in
    (
      reasons ++ not_consistent inputs reasons,
      rw (bypass_eq, dead_eq) refl,
      (
        λ h.
            let (quiet, verdict) = verdict_split h in
            let (q4, no_dead) = s4 quiet in
            let (q3, no_changed) = s3 q4 in
            let (q2, no_bypassed) = s2 q3 in
            let (q1, no_unknowns) = s1 q2 in
            let (not_over, not_named) = bypass_quiet no_bypassed in
            let (alive, fresh) = dead_quiet no_dead in
            (
              q1,
              (
                unknown_nil (no_unknown no_unknowns),
                over_nil not_over,
                not_named,
                change_nil (no_change no_changed),
                alive,
                fresh,
                verdict,
              ),
            ),
        λ (q1, (unknowns, over, not_named, changes, alive, fresh, verdict)). verdict_join (
          j4 (
            j3 (
              j2 (
                j1 (q1, unknown_back (nil_unknown unknowns)),
                bypass_back (nil_over over, not_named),
              ),
              change_back (nil_change changes),
            ),
            dead_back (alive, fresh),
          ),
          verdict,
        ),
      ),
    )

-- Nothing that the rows of a derived feed look for.
abbrev pub IsClearDerived : FeedInputs → Option CrossfootRow → Type 0
IsClearDerived inputs row =
    (verdict_unless "MODEL_MATCH" row ≡ [])
    × (is_old_result inputs ≡ false)
    × (inputs.rate_changes ≡ [])

result_words :
    (inputs : FeedInputs) (row : CrossfootRow)
    → (rows_of_result inputs (some row) ≡ []) ↔ IsClearDerived inputs (some row)
result_words inputs row =
    let verdict = verdict_unless "MODEL_MATCH" (some row) in
    let old = reason_if (is_old_result inputs) "RESULT_STALE" in
    let changed = reason_if (not (is_empty inputs.rate_changes)) "RATE_CHANGED_AFTER_WINDOW" in
    let (s2, j2) = append-nil (verdict ++ old) changed in
    let (s1, j1) = append-nil verdict old in
    let (no_old, old_back) = reason_if-nil (is_old_result inputs) "RESULT_STALE" in
    let (no_change, change_back) =
      reason_if-nil (not (is_empty inputs.rate_changes)) "RATE_CHANGED_AFTER_WINDOW" in
    let (change_nil, nil_change) = is_empty-nil inputs.rate_changes in
    (
      λ h.
          let (q, no_changed) = s2 h in
          let (no_verdict, no_olds) = s1 q in
          (no_verdict, no_old no_olds, change_nil (no_change no_changed)),
      λ (v, o, c). j2 (j1 (v, old_back o), change_back (nil_change c)),
    )

-- The first three rows.
abbrev pub IsObserved : FeedInputs → Type 0
IsObserved inputs = (inputs.head.has_indexing_errors ≡ false) × (is_lagging inputs ≡ false)

head_words :
    (inputs : FeedInputs)
    → (((indexing_errors inputs ++ subgraph_stale inputs) ++ no_result inputs) ≡ [])
      ↔ (IsObserved inputs × (is_none inputs.row ≡ false))
unfolding indexing_errors subgraph_stale no_result
head_words inputs =
    let (s2, j2) =
      append-nil (indexing_errors inputs ++ subgraph_stale inputs) (no_result inputs) in
    let (s1, j1) = append-nil (indexing_errors inputs) (subgraph_stale inputs) in
    let (e, e') = reason_if-nil inputs.head.has_indexing_errors "INDEXING_ERRORS" in
    let (l, l') = reason_if-nil (is_lagging inputs) "SUBGRAPH_STALE" in
    let (n, n') = reason_if-nil (is_none inputs.row) "NO_CROSSFOOT_RESULT" in
    (
      λ h. let (q, c) = s2 h in let (a, b) = s1 q in ((e a, l b), n c),
      λ ((a, b), c). j2 (j1 (e' a, l' b), n' c),
    )

abbrev pub IsClear : FeedInputs → Family → Option CrossfootRow → Type 0
IsClear inputs posted row = IsClearPosted inputs row
IsClear inputs derived none = Unit
IsClear inputs derived (some row) = IsClearDerived inputs (some row)

result_rows :
    (inputs : FeedInputs) (row : Option CrossfootRow)
    → (rows_of_result inputs row ≡ []) ↔ IsClear inputs derived row
result_rows inputs none = (λ h. tt, λ h. refl)
result_rows inputs (some row) = result_words inputs row

family_words :
    (inputs : FeedInputs) (family : Family) (before : List String)
    → Pushes (family_rows inputs family before) ((before ≡ []) × IsClear inputs family inputs.row)
unfolding family_rows derived_rows
family_words inputs posted before = posted_words inputs before
family_words inputs derived before =
    let (split, join) = append-nil before (rows_of_result inputs inputs.row) in
    let (clear, back) = result_rows inputs inputs.row in
    (
      before ++ rows_of_result inputs inputs.row,
      refl,
      (λ h. let (q, r) = split h in (q, clear r), λ (q, c). join (q, back c)),
    )

with_row :
    (F : Option CrossfootRow → Type 0) (row : Option CrossfootRow)
    → ((is_none row ≡ false) × F row) ↔ ((r : CrossfootRow) × (row ≡ some r) × F (some r))
with_row F none = (λ (h, _). cc, λ (r, h, _). cc)
with_row F (some row) = (λ (_, f). (row, refl, f), λ (r, e, f). (refl, subst F (sym e) f))

-- The rows do not panic, and push nothing exactly on an observed feed with a row that is clear.
pub table_words :
    (inputs : FeedInputs)
    → Pushes (table_rows inputs) (
        IsObserved inputs
        × (row : CrossfootRow) × (inputs.row ≡ some row)
        × IsClear inputs inputs.feed.family (some row))
unfolding table_rows
table_words inputs =
    let before = (indexing_errors inputs ++ subgraph_stale inputs) ++ no_result inputs in
    let (words, words_eq, (quiet, back)) = family_words inputs inputs.feed.family before in
    let (head_quiet, head_back) = head_words inputs in
    let (found, lost) = with_row (IsClear inputs inputs.feed.family) inputs.row in
    (
      words,
      words_eq,
      (
        λ h.
            let (q, clear) = quiet h in
            let (observed, row) = head_quiet q in
            let (r, e, clear_row) = found (row, clear) in (observed, r, e, clear_row),
        λ (observed, r, e, clear_row).
            let (row, clear) = lost (r, e, clear_row) in back (head_back (observed, row), clear),
      ),
    )
