-- ===== src/Verify/Spread.antt =====
-- verify.rs, `sample_entries`: it does not panic, and spreads its sample evenly over the entries.
use Prim.Native.String.{String}
use native.Mathlib.Nat.{
  le-div_iff_mul-le, div-lt_iff_lt-mul, div-mul-le_self, mul_comm, suc-mul, mul-le-mul_right,
  mul-le-mul, mul-div_cancel, mod-eq_of_lt,
}
use crossfoot.Base.{
  ◌-◌, ◌^◌, ◌≢◌, ◌↔◌, ◌⊎◌, sym, true, Option, none, u64_mod, some_text, same_text_iff, Bool-cases,
  and_then-eq-some, ℕ, zero, suc, ◌+◌, ◌*◌, ◌/◌, ◌≤◌, ◌<◌, ◌≡◌, refl, ap, ◌∙◌, arith, some, List,
  [], ◌∷◌, length, min, All, le-lt-cases, inl, inr,
}
use crossfoot.Verify.Hashes.{Entry}
use crossfoot.Verify.Sample.{
  Sample, all, count, json_rpc, get_elem?, picks_from, indices, dedup, picks, pick, sample_entries,
}

-- Each entry of the list is greater than the one before it.
abbrev Ascends : List ℕ → Type 0
Ascends [] = Unit
Ascends (a ∷ []) = Unit
Ascends (a ∷ b ∷ rest) = (a < b) × Ascends (b ∷ rest)

dedup-Ascends : (xs : List ℕ) → Ascends xs → dedup xs ≡ xs
unfolding dedup
dedup-Ascends [] h = refl
dedup-Ascends (a ∷ []) h = refl
dedup-Ascends (a ∷ b ∷ rest) h =
    let later = dedup-Ascends (b ∷ rest) h.1 in ground (arith, later, h.0)

-- The next multiple of `total` is at least `n` more, so its quotient by `n` is greater.
next_pick : (i total n : ℕ) → 0 < n → n ≤ total → i * total / n < suc i * total / n
next_pick i total n pos h =
    (le-div_iff_mul-le pos).1
      (omega (arith, suc-mul (i * total / n) n, suc-mul i total, div-mul-le_self (i * total) n))

-- The picks in unbounded numbers.
abbrev exact_picks : (rounds i total n : ℕ) → List ℕ
exact_picks zero i total n = []
exact_picks (suc rounds) i total n = i * total / n ∷ exact_picks rounds (suc i) total n

pick-lt : (i total n : ℕ) → i < n → n ≤ total → i * total / n < total
pick-lt i total n h fits =
    (div-lt_iff_lt-mul (omega (arith, h))).1 (
      omega
        (arith, mul_comm total n, suc-mul i total, mul-le-mul_right {m = suc i} {n = n} total h))

exact_picks-Ascends :
    (rounds i total n : ℕ) → 0 < n → n ≤ total → Ascends (exact_picks rounds i total n)
exact_picks-Ascends zero i total n pos h = tt
exact_picks-Ascends (suc zero) i total n pos h = tt
exact_picks-Ascends (suc (suc rounds)) i total n pos h =
    (next_pick i total n pos h, exact_picks-Ascends (suc rounds) (suc i) total n pos h)

-- The number of picks, all of them inside the list.
abbrev Inside : ℕ → ℕ → List ℕ → Type 0
Inside size total picked = (length picked ≡ size) × All (λ i. i < total) picked

exact_picks-Inside :
    (rounds i total n : ℕ)
    → n ≤ total
    → i + rounds ≤ n
    → Inside rounds total (exact_picks rounds i total n)
exact_picks-Inside zero i total n h fits = (refl, tt)
exact_picks-Inside (suc rounds) i total n h fits =
    let (size, inside) = exact_picks-Inside rounds (suc i) total n h (omega arith) in
    (ap suc size, (pick-lt i total n (omega arith) h, inside))

indices-Inside : (rounds i total : ℕ) → i + rounds ≤ total → Inside rounds total (indices rounds i)
indices-Inside zero i total fits = (refl, tt)
indices-Inside (suc rounds) i total fits =
    let (size, inside) = indices-Inside rounds (suc i) total (omega arith) in
    (ap suc size, (omega arith, inside))

-- The number of entries that a sample of a list of this length has.
abbrev pub sample_size : ℕ → Sample → ℕ
sample_size total all = total
sample_size total (count n) = min n total

-- No product wraps where the list has fewer than 2 ^ 32 entries.
picks_from-exact :
    (rounds i total n : ℕ)
    → total < 2 ^ 32
    → i + rounds ≤ total
    → picks_from rounds i total n ≡ exact_picks rounds i total n
unfolding picks_from
picks_from-exact zero i total n small fits = refl
picks_from-exact (suc rounds) i total n small fits =
    let below_i : i ≤ 2 ^ 32 - 1 = omega (arith, small, fits) in
    let below_total : total ≤ 2 ^ 32 - 1 = omega (arith, small) in
    let product : i * total ≤ (2 ^ 32 - 1) * (2 ^ 32 - 1) = mul-le-mul below_i below_total in
    let fits_word : i * total < u64_mod = omega (arith, product) in
    rw (mod-eq_of_lt fits_word, picks_from-exact rounds (suc i) total n small (omega arith)) refl

picked_at :
    (rounds i total n j : ℕ)
    → j < rounds
    → get_elem? (exact_picks rounds i total n) j ≡ some ((i + j) * total / n)
picked_at zero i total n j h = absurd (omega arith)
picked_at (suc rounds) i total n zero h =
    let here : i ≡ i + 0 = omega arith in ap (λ k. some (k * total / n)) here
picked_at (suc rounds) i total n (suc j) h =
    let next : suc i + j ≡ i + suc j = omega arith in
    picked_at rounds (suc i) total n j (omega arith) ∙ ap (λ k. some (k * total / n)) next

index_at : (rounds i j : ℕ) → j < rounds → get_elem? (indices rounds i) j ≡ some (i + j)
index_at zero i j h = absurd (omega arith)
index_at (suc rounds) i zero h = ap some (omega arith)
index_at (suc rounds) i (suc j) h =
    let next : suc i + j ≡ i + suc j = omega arith in
    index_at rounds (suc i) j (omega arith) ∙ ap some next

-- As many picks as asked for, evenly spread over the list.
abbrev Picked : (size total : ℕ) → List ℕ → Type 0
Picked size total picked =
    Inside size total picked × ((j : ℕ) → j < size → get_elem? picked j ≡ some (j * total / size))

picks_nothing : (total : ℕ) → Picked 0 total (dedup (picks_from 0 0 total 0))
unfolding dedup picks_from
picks_nothing total = ((refl, tt), λ j h. absurd (omega arith))

picks-Picked :
    (total : ℕ) (sample : Sample)
    → total < 2 ^ 32
    → Picked (sample_size total sample) total (picks total sample)
unfolding picks
picks-Picked total all small = (
  indices-Inside total 0 total (omega arith),
  λ j h.
      let whole : j * total / total ≡ j = mul-div_cancel j (omega arith) in
      let start : 0 + j ≡ j * total / total = omega (arith, whole) in
      index_at total 0 j h ∙ ap some start,
)
picks-Picked total (count n) small = elim (le-lt-cases (min n total) 0) [
  | inl none_left ↦ let e : min n total ≡ 0 = omega arith in rw e (picks_nothing total)
  | inr positive ↦
      let size = min n total in
      rw
        (
          picks_from-exact size 0 total size small (omega arith),
          dedup-Ascends _ (exact_picks-Ascends size 0 total size positive (omega arith)),
        )
        (
          exact_picks-Inside size 0 total size (omega arith) (omega arith),
          λ j h.
              let start : 0 + j ≡ j = omega arith in
              picked_at size 0 total size j h ∙ ap (λ k. some (k * total / size)) start,
        )
]

get_elem?-some {ℓ} :
    {A : Type ℓ} (xs : List A) (i : ℕ) → i < length xs → (x : A) × (get_elem? xs i ≡ some x)
get_elem?-some [] i h = absurd (omega arith)
get_elem?-some (x ∷ xs) zero h = (x, refl)
get_elem?-some (x ∷ xs) (suc i) h = get_elem?-some xs i (omega arith)

pick-Inside :
    (entries : List Entry) (size : ℕ) (picked : List ℕ)
    → Inside size (length entries) picked
    → (out : List Entry) × (pick entries picked ≡ some out) × (length out ≡ size)
unfolding pick
pick-Inside entries size [] h = ([], refl, h.0)
pick-Inside entries size (i ∷ picked) h =
    let (entry, found) = get_elem?-some entries i h.1.0 in
    let (out, rest, long) = pick-Inside entries (length picked) picked (refl, h.1.1) in
    (entry ∷ out, simp (found, rest) refl, ap suc long ∙ h.0)

pick_at :
    (entries : List Entry) (picked : List ℕ) (out : List Entry) (j i : ℕ)
    → pick entries picked ≡ some out
    → get_elem? picked j ≡ some i
    → get_elem? out j ≡ get_elem? entries i
unfolding pick
pick_at entries [] out j i e found = cc
pick_at entries (k ∷ picked) out zero i e found =
    let (entry, at_k, e') = and_then-eq-some (get_elem? entries k) _ e in
    let (rest, others, e'') = and_then-eq-some (pick entries picked) _ e' in
    let whole : out ≡ entry ∷ rest = cc in
    let same : k ≡ i = cc in rw whole (sym at_k ∙ ap (λ n. get_elem? entries n) same)
pick_at entries (k ∷ picked) out (suc j) i e found =
    let (entry, at_k, e') = and_then-eq-some (get_elem? entries k) _ e in
    let (rest, others, e'') = and_then-eq-some (pick entries picked) _ e' in
    let whole : out ≡ entry ∷ rest = cc in rw whole (pick_at entries picked rest j i others found)

-- The entries read over JSON-RPC, in their order, and no others.
abbrev pub RpcOf : (entries rpc : List Entry) → Type 0
RpcOf [] rpc = rpc ≡ []
RpcOf (entry ∷ entries) rpc =
    ((entry.wire ≡ some "json_rpc")
      × ((rest : List Entry) × (rpc ≡ entry ∷ rest) × RpcOf entries rest))
    ⊎ ((entry.wire ≢ some "json_rpc") × RpcOf entries rpc)

some_text_iff : (t : Option String) (s : String) → (some_text t s ≡ true) ↔ (t ≡ some s)
some_text_iff none s = (λ h. cc, λ h. cc)
some_text_iff (some t) s =
    let (forth, back) = same_text_iff t s in
    (λ h. ap some (forth h), λ h. let same : t ≡ s = cc in back same)

json_rpc-RpcOf :
    (entries : List Entry)
    → RpcOf entries (json_rpc entries) × (length (json_rpc entries) ≤ length entries)
unfolding json_rpc
json_rpc-RpcOf [] = (refl, omega arith)
json_rpc-RpcOf (entry ∷ entries) =
    let (rest, size) = json_rpc-RpcOf entries in
    let (forth, back) = some_text_iff entry.wire "json_rpc" in
    elim (Bool-cases (some_text entry.wire "json_rpc")) [
      | inl rpc ↦ rw rpc (inl (forth rpc, (json_rpc entries, refl, rest)), omega (arith, size))
      | inr other ↦ rw other (inr (λ e. absurd (cc), rest), omega (arith, size))
    ]

-- Evenly spread over the list: all entries, or as many as asked for and there are, entry `j` of the
-- sample being entry `j * total / size` of the list.
abbrev pub IsSpread : Sample → (rpc out : List Entry) → Type 0
IsSpread sample rpc out =
    (length out ≡ sample_size (length rpc) sample)
    × ((j : ℕ) → j < length out → get_elem? out j ≡ get_elem? rpc (j * length rpc / length out))

-- For fewer than 2 ^ 32 manifest entries sampling does not panic. It selects from the entries whose
-- wire is JSON-RPC: all of them, or as many as it is asked for and there are; and entry j of the
-- sample is entry j * total / size of these, rounded down, so that the sample is spread evenly.
pub sample_entries-IsSpread :
    (entries : List Entry) (sample : Sample)
    → length entries < 2 ^ 32
    → (rpc : List Entry) × (out : List Entry) × RpcOf entries rpc
      × (sample_entries entries sample ≡ some out)
      × IsSpread sample rpc out
unfolding sample_entries
sample_entries-IsSpread entries sample small =
    let rpc = json_rpc entries in
    let (of_rpc, fewer) = json_rpc-RpcOf entries in
    let (inside, spread) = picks-Picked (length rpc) sample (omega (arith, small, fewer)) in
    let (out, e, size) = pick-Inside rpc _ _ inside in
    (
      rpc,
      out,
      of_rpc,
      e,
      (
        size,
        λ j h. rw size (
            pick_at rpc (picks (length rpc) sample) out j
              (j * length rpc / sample_size (length rpc) sample) e
              (spread j (omega (arith, h, size)))),
      ),
    )
