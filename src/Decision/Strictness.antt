-- ===== src/Decision/Strictness.antt =====
-- decision.rs, `decide`: what the consumer's policy adds to the table's decision.
use crossfoot.Base.{◌≡◌, refl, sym, ◌∙◌, ap, none, some, [], ◌++◌, append-nil}
use mathlib.Core.List
use crossfoot.Decision.{allow, Family, posted, derived, FeedInputs, Outcome}
use crossfoot.Decision.Rows.{
  head_lag, feed_age, result_age, indexing_errors, is_lagging, subgraph_stale, no_result,
  over_bound, path_not_attributable, guard_bypassed, bound_changed, is_fresh, not_live,
  not_consistent, posted_rows, is_old_result, derived_rows, family_rows, table_rows,
}
use crossfoot.Decision.Decide.{policy_reasons, decide}
use crossfoot.Decision.Allow.{decide-Reports}
use crossfoot.Decision.Quiet.{table_words}

-- The same feed without a policy.
abbrev pub without_policy : FeedInputs → FeedInputs
without_policy inputs = record inputs { eligibility = none }

table_rows-without_policy :
    (inputs : FeedInputs) → table_rows (without_policy inputs) ≡ table_rows inputs
unfolding head_lag feed_age result_age indexing_errors is_lagging subgraph_stale no_result
    over_bound path_not_attributable guard_bypassed bound_changed is_fresh not_live not_consistent
    posted_rows is_old_result derived_rows family_rows table_rows
table_rows-without_policy inputs = refl

no_gates : (inputs : FeedInputs) (family : Family) → policy_reasons inputs family none ≡ []
unfolding policy_reasons
no_gates inputs posted = refl
no_gates inputs derived = refl

-- A policy only adds: the decision returns with it and without it, the reasons with it are those
-- without it, in their order, followed by the policy's own, and a feed that is allowed with it is
-- allowed without it.
pub decide-without_policy :
    (inputs : FeedInputs)
    → (o o' : Outcome) × (decide inputs ≡ some o)
      × (decide (without_policy inputs) ≡ some o')
      × (o.reasons ≡ (o'.reasons ++ policy_reasons inputs inputs.feed.family inputs.eligibility))
      × (o.decision ≡ allow → o'.decision ≡ allow)
decide-without_policy inputs =
    let (words, words_eq, _) = table_words inputs in
    let gates = policy_reasons inputs inputs.feed.family inputs.eligibility in
    let (o, o_eq, o_reasons, (o_only, _)) = decide-Reports inputs words words_eq in
    let (o', o'_eq, o'_reasons, (_, o'_if)) =
      decide-Reports (without_policy inputs) words (table_rows-without_policy inputs ∙ words_eq) in
    let alone =
      ap (λ gates. words ++ gates) (no_gates (without_policy inputs) inputs.feed.family) in
    let plain : o'.reasons ≡ words = o'_reasons ∙ alone ∙ List.append-nil words in
    let (split, _) = append-nil words gates in
    (
      o,
      o',
      o_eq,
      o'_eq,
      o_reasons ∙ ap (λ w. w ++ gates) (sym plain),
      λ h. let (q, _) = split (o_only h) in o'_if (alone ∙ List.append-nil words ∙ q),
    )
