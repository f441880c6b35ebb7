-- ===== src/Decision/Gates.antt =====
-- decision.rs, `decide`: the gates of the consumer's policy, each with the reasons that it pushes.
use Prim.Native.String.{String}
use crossfoot.Base.{
  is_empty, ℕ, Bool, true, false, ◌&&◌, ◌||◌, not, Option, none, some, List, [], ◌∷◌, ◌++◌, length,
  ltb, if◌then◌else◌, ℤ, pos, ◌-ℤ◌, ◌*ℤ◌, ltb_ℤ, wrap64, same_text, some_text, codes,
  same_ignoring_case,
}
use crossfoot.Decimal.{parse_u128, percent_to_1e8}
use crossfoot.Decision.{
  Policy, PolicyGates, UncheckedRound, CrossfootRow, FeedInputs, as_i64, sub_i64,
}
use crossfoot.Decision.Rows.{feed_age, has_path, reason_if}

-- `GUARD_LESS_PATHS` and the guard kind.
unfoldable pub is_guard_less : CrossfootRow → Bool
is_guard_less row =
    some_text row.posting_path "ATTRIBUTED"
    || some_text row.posting_path "UNGUARDED"
    || some_text row.guard_kind "none"

unfoldable pub is_aggregated : CrossfootRow → Bool
is_aggregated row = some_text row.posting_path "AGGREGATED"

-- The selectors of `setRoundData3` and `setRoundDataSafe3`.
unfoldable pub is_unverified_selector : Option String → Bool
unfolding same_ignoring_case
is_unverified_selector none = false
is_unverified_selector (some selector) =
    same_ignoring_case selector "0x2b6e02c7" || same_ignoring_case selector "0x92260352"

unfoldable pub any_unverified : List UncheckedRound → Bool
unfolding is_unverified_selector
any_unverified [] = false
any_unverified (r ∷ rs) = is_unverified_selector r.selector || any_unverified rs

abbrev pub row_is {ℓ} : {A : Type ℓ} → (A → Bool) → Option A → Bool
row_is test none = false
row_is test (some row) = test row

-- Gate 1.
unfoldable pub no_rule_gate : FeedInputs → PolicyGates → List String
unfolding is_guard_less
no_rule_gate inputs gates =
    reason_if (not gates.accept_guard_less_feeds && row_is is_guard_less inputs.row)
      "POLICY_NO_RULE"

-- Gate 2.
unfoldable pub path_gap_gate : FeedInputs → PolicyGates → List String
path_gap_gate inputs gates =
    reason_if
      (ltb gates.max_unattributed_rounds (length inputs.unknown_rounds)
        || has_path inputs.row "UNATTRIBUTED")
      "POLICY_PATH_GAP"

-- A deviation's text as a number, and whether it is over the limit.
abbrev pub exceeds : ℕ → Option String → Bool
exceeds limit none = false
exceeds limit (some text) = row_is (ltb limit) (parse_u128 (codes text))

unfoldable pub any_exceeds : ℕ → List UncheckedRound → Bool
any_exceeds limit [] = false
any_exceeds limit (r ∷ rs) = exceeds limit r.deviation || any_exceeds limit rs

abbrev pub percent_limit : Option String → Option ℕ
percent_limit none = none
percent_limit (some text) = percent_to_1e8 (codes text)

abbrev pub over_limit : List UncheckedRound → Option ℕ → Bool
over_limit rounds none = false
over_limit rounds (some limit) = any_exceeds limit rounds

-- Gate 3: the deviation and the silence.
unfoldable pub deviation_gate : FeedInputs → PolicyGates → List String
deviation_gate inputs gates =
    reason_if
      (over_limit inputs.unchecked_rounds (percent_limit gates.max_unchecked_deviation_percent))
      "POLICY_DEVIATION"

abbrev pub older_than : Option ℕ → Option ℤ → Bool
older_than (some limit) (some age) = ltb_ℤ (as_i64 limit) age
older_than _ _ = false

unfoldable pub silence_gate : FeedInputs → PolicyGates → List String
unfolding wrap64
silence_gate inputs gates =
    reason_if (older_than gates.max_seconds_since_last_post (feed_age inputs)) "POLICY_SILENCE"

unfoldable pub policy_window_seconds : Policy → ℤ
unfolding ◌*ℤ◌ wrap64
policy_window_seconds policy = wrap64 (as_i64 policy.window_days *ℤ pos 86_400)

unfoldable pub answers_since : ℤ → List (String × ℤ) → List String
answers_since since [] = []
answers_since since ((answer, t) ∷ rest) =
    let later = answers_since since rest in if ltb_ℤ t since then later else answer ∷ later

abbrev pub all_same : String → List String → Bool
all_same first [] = true
all_same first (a ∷ rest) = same_text a first && all_same first rest

-- At least two answers, all of them equal to the first.
abbrev pub is_constant : List String → Bool
is_constant [] = false
is_constant (a ∷ []) = false
is_constant (a ∷ b ∷ rest) = all_same a (b ∷ rest)

-- Gate 4.
unfoldable pub constant_gate : FeedInputs → PolicyGates → List String
unfolding answers_since policy_window_seconds ◌-ℤ◌ wrap64
constant_gate inputs gates =
    let since = sub_i64 inputs.now (policy_window_seconds inputs.policy) in
    reason_if
      (gates.flag_constant_value && is_constant (answers_since since inputs.feed.recent_answers))
      "POLICY_CONSTANT"

abbrev pub listed : String → List String → Bool
listed key [] = false
listed key (a ∷ rest) = same_ignoring_case a key || listed key rest

abbrev pub any_outsider : List String → List String → Bool
any_outsider allowed [] = false
any_outsider allowed (key ∷ keys) = not (listed key allowed) || any_outsider allowed keys

abbrev pub fewer_than : Option ℕ → List String → Bool
fewer_than none keys = false
fewer_than (some least) keys = not (is_empty keys) && ltb (length keys) least

abbrev pub poster_failure : PolicyGates → Option CrossfootRow → Bool
poster_failure gates none = false
poster_failure gates (some row) =
    let keys = row.poster_addresses in
    (gates.require_poster_keys && is_empty keys)
    || fewer_than gates.min_poster_keys keys
    || (not (is_empty gates.allowed_posters) && any_outsider gates.allowed_posters keys)

-- Gate 5.
unfoldable pub poster_gate : FeedInputs → PolicyGates → List String
poster_gate inputs gates = reason_if (poster_failure gates inputs.row) "POLICY_POSTER"

unfoldable pub gate_reasons : FeedInputs → PolicyGates → List String
unfolding no_rule_gate path_gap_gate deviation_gate silence_gate constant_gate poster_gate
gate_reasons inputs gates =
    ((((no_rule_gate inputs gates ++ path_gap_gate inputs gates) ++ deviation_gate inputs gates)
        ++ silence_gate inputs gates)
      ++ constant_gate inputs gates)
    ++ poster_gate inputs gates
