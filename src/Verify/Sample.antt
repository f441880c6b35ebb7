-- ===== src/Verify/Sample.antt =====
-- verify.rs, `Sample` and `sample_entries`: the entries that a refetch reads again.
use crossfoot.Base.{
  ℕ, zero, suc, ◌*◌, ◌/◌, Bool, true, false, Option, none, some, List, [], ◌∷◌, length, ◌==◌, min,
  some_text, if◌then◌else◌, and_then, ltb, u64_mod, ◌%◌,
}
use crossfoot.Verify.Hashes.{Entry}

pub data Sample : Type 0 where
  all : Sample
  count : ℕ → Sample

-- `text == "all"`, or a positive count, given what `parse::<usize>` reads of the text.
unfoldable pub sample_of : (is_all : Bool) → Option ℕ → Option Sample
sample_of true parsed = some all
sample_of false none = none
sample_of false (some n) = if ltb 0 n then some (count n) else none

unfoldable pub json_rpc : List Entry → List Entry
json_rpc [] = []
json_rpc (entry ∷ entries) =
    let rest = json_rpc entries in if some_text entry.wire "json_rpc" then entry ∷ rest else rest

abbrev pub get_elem? {ℓ} : {A : Type ℓ} → List A → ℕ → Option A
get_elem? [] i = none
get_elem? (x ∷ xs) zero = some x
get_elem? (x ∷ xs) (suc i) = get_elem? xs i

-- `rounds` indices from `i` on: `i * total / n`, with the unchecked product of `usize`.
unfoldable pub picks_from : (rounds i total n : ℕ) → List ℕ
picks_from zero i total n = []
picks_from (suc rounds) i total n = i * total % u64_mod / n ∷ picks_from rounds (suc i) total n

abbrev pub indices : (rounds i : ℕ) → List ℕ
indices zero i = []
indices (suc rounds) i = i ∷ indices rounds (suc i)

-- `dedup`: the first of equal neighbours stays.
unfoldable pub dedup : List ℕ → List ℕ
dedup [] = []
dedup (a ∷ []) = a ∷ []
dedup (a ∷ b ∷ rest) = let later = dedup (b ∷ rest) in if a == b then later else a ∷ later

unfoldable pub picks : ℕ → Sample → List ℕ
picks total all = indices total 0
picks total (count n) = dedup (picks_from (min n total) 0 total (min n total))

-- `json_rpc[i]`, none where that panics.
unfoldable pub pick : List Entry → List ℕ → Option (List Entry)
pick entries [] = some []
pick entries (i ∷ is) =
    let rest = pick entries is in
    and_then (get_elem? entries i) λ entry. and_then rest λ picked. some (entry ∷ picked)

unfoldable pub sample_entries : List Entry → Sample → Option (List Entry)
sample_entries entries sample = pick (json_rpc entries) (picks (length (json_rpc entries)) sample)
