-- ===== src/Decision/Allow.antt =====
-- decision.rs, `decide`: it returns for every feed, and when it says ALLOW.
use Prim.Native.String.{String}
use crossfoot.Base.{
  ◌≡◌, ◌↔◌, refl, ◌∙◌, Option, some, List, [], ◌∷◌, ◌++◌, append-nil, if◌then◌else◌,
}
use crossfoot.Decision.{allow, CrossfootRow, FeedInputs, Note, Outcome, unverified_selector}
use crossfoot.Decision.Rows.{table_rows}
use crossfoot.Decision.Gates.{any_unverified}
use crossfoot.Decision.Decide.{policy_reasons, policy_notes, conclude, decide}
use crossfoot.Decision.Quiet.{table_words}
use crossfoot.Decision.Clear.{IsServed, IsQuiet, IsServed-iff, IsQuiet-iff}

-- What an outcome of these reasons shows.
abbrev pub Reports : Option Outcome → List String → Type 0
Reports computed words =
    (o : Outcome) × (computed ≡ some o)
    × (o.reasons ≡ words)
    × ((o.decision ≡ allow) ↔ (words ≡ []))

conclude-Reports :
    (inputs : FeedInputs) (words : List String) (notes : List Note)
    → (words ≡ [] → (row : CrossfootRow) × (inputs.row ≡ some row))
    → Reports (conclude inputs words notes) words
unfolding conclude
conclude-Reports inputs [] notes has_row =
    let (row, e) = has_row refl in rw e (_, refl, refl, (λ h. refl, λ h. refl))
conclude-Reports inputs (word ∷ words) notes has_row = (_, refl, refl, (λ h. cc, λ h. cc))

-- A feed that is served, has a row, is quiet by the rows of its family, and that no gate of the policy
-- is against.
abbrev pub IsAllowed : FeedInputs → Type 0
IsAllowed inputs =
    IsServed inputs
    × ((row : CrossfootRow) × (inputs.row ≡ some row) × IsQuiet inputs inputs.feed.family row)
    × (policy_reasons inputs inputs.feed.family inputs.eligibility ≡ [])

-- The outcome reports the reasons of the table, followed by those of the policy.
pub decide-Reports :
    (inputs : FeedInputs) (words : List String)
    → table_rows inputs ≡ some words
    → Reports (decide inputs) (words ++ policy_reasons inputs inputs.feed.family inputs.eligibility)
unfolding decide
decide-Reports inputs words words_eq =
    let (words', words'_eq, (quiet, back)) = table_words inputs in
    let gates = policy_reasons inputs inputs.feed.family inputs.eligibility in
    let notes =
      (if any_unverified inputs.unchecked_rounds then unverified_selector ∷ [] else [])
      ++ policy_notes inputs.eligibility gates in
    let (split, join) = append-nil words gates in
    let (o, o_eq, o_reasons, if_allowed) = conclude-Reports inputs (words ++ gates) notes (λ h.
      let (q, _) = split h in
      let same : words' ≡ words = cc in let (_, row, e, _) = quiet (same ∙ q) in (row, e)) in
    rw words_eq (o, o_eq, o_reasons, if_allowed)

-- The decision never panics; its reasons are those of the table followed by those of the policy; and
-- it is ALLOW exactly when the index has no errors and its head is within the lag, the feed has a row,
-- no gate of the policy is against it, and: for a posted feed, no round in the window is of an unknown
-- path or over its bound, the row's path is not a bypass, no bound changed, the row is live or says
-- nothing of it, the last post is recent enough and the verdict is CONSISTENT; for a derived feed, the
-- verdict is MODEL_MATCH, the result is recent enough and no rate changed after it.
pub decide-IsAllowed :
    (inputs : FeedInputs)
    → (o : Outcome) × (words : List String) × (decide inputs ≡ some o)
      × (table_rows inputs ≡ some words)
      × (o.reasons ≡ (words ++ policy_reasons inputs inputs.feed.family inputs.eligibility))
      × ((o.decision ≡ allow) ↔ IsAllowed inputs)
decide-IsAllowed inputs =
    let (words, words_eq, (quiet, back)) = table_words inputs in
    let gates = policy_reasons inputs inputs.feed.family inputs.eligibility in
    let (split, join) = append-nil words gates in
    let (o, o_eq, o_reasons, (to_nil, from_nil)) = decide-Reports inputs words words_eq in
    let (served, observed) = IsServed-iff inputs in
    (
      o,
      words,
      o_eq,
      words_eq,
      o_reasons,
      (
        λ h.
            let (q, g) = split (to_nil h) in
            let (seen, row, e, clear) = quiet q in
            (served seen, (row, e, (IsQuiet-iff inputs inputs.feed.family row).0 clear), g),
        λ (seen, (row, e, clear), g). from_nil (
            join (
              back (observed seen, row, e, (IsQuiet-iff inputs inputs.feed.family row).1 clear),
              g,
            )),
      ),
    )
