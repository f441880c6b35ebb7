-- ===== src/Clock/Span.antt =====
-- clock.rs, `ticks`: the loop in unbounded numbers. On a series of words in ascending order the
-- 128-bit accumulator never wraps.
use native.Mathlib.Nat.{mul-le-mul_left}
use crossfoot.Base.{
  ℕ, ◌+◌, ◌-◌, ◌*◌, ◌≤◌, ◌<◌, min, ◌≡◌, refl, ◌∙◌, List, [], ◌∷◌, inl, inr, arith, leb,
  if◌then◌else◌, le-lt-cases, le→leb, lt→leb, u64_mod, u64_max, u128_mod, add128, mul128, sub64,
  add128-exact, mul128-exact, sub64-exact,
}
use crossfoot.Clock.Defs.{RateSegment, segment_end, ticks_loop}

-- Both fields are words.
pub record IsWords (s : RateSegment) : Type 0 where
  pub start_word : s.start < u64_mod
  pub rate_word : s.rate_ppm < u64_mod

abbrev pub IsAscending : List RateSegment → Type 0
IsAscending [] = Unit
IsAscending (a ∷ []) = Unit
IsAscending (a ∷ b ∷ rest) = (a.start < b.start) × IsAscending (b ∷ rest)

-- A series of words in strictly ascending order.
abbrev pub IsSeries : List RateSegment → Type 0
IsSeries [] = Unit
IsSeries (a ∷ []) = IsWords a
IsSeries (a ∷ b ∷ rest) = IsWords a × (a.start < b.start) × IsSeries (b ∷ rest)

-- What the segments contribute up to `t`, with no bound on the numbers.
pub span_sum : ℕ → List RateSegment → ℕ
span_sum t [] = 0
span_sum t (s ∷ rest) =
    if leb t s.start then 0 else (segment_end t rest - s.start) * s.rate_ppm + span_sum t rest

pub span_sum_before :
    (t : ℕ) (s : RateSegment) (rest : List RateSegment) → t ≤ s.start → span_sum t (s ∷ rest) ≡ 0
unfolding span_sum
span_sum_before t s rest h = ground arith

pub span_sum_after :
    (t : ℕ) (s : RateSegment) (rest : List RateSegment)
    → s.start < t
    → span_sum t (s ∷ rest) ≡ (segment_end t rest - s.start) * s.rate_ppm + span_sum t rest
unfolding span_sum
span_sum_after t s rest h = rw (lt→leb t s.start h)

pub span_sum-nil : (t : ℕ) → span_sum t [] ≡ 0
unfolding span_sum
span_sum-nil t = refl

-- A product of words, against the largest rate.
pub product_bound : (x r : ℕ) → r < u64_mod → x * r ≤ x * u64_max
product_bound x r h = let p : r ≤ u64_max = omega arith in mul-le-mul_left x p

pub span_sum-le :
    (t : ℕ) (s : RateSegment) (rest : List RateSegment)
    → IsSeries (s ∷ rest)
    → span_sum t (s ∷ rest) ≤ (t - s.start) * u64_max
span_sum-le t s [] h = elim (le-lt-cases t s.start) [
  | inl before ↦ omega (arith, span_sum_before t s [] before)
  | inr after ↦ omega (
    arith,
    span_sum_after t s [] after,
    span_sum-nil t,
    product_bound (t - s.start) s.rate_ppm h.rate_word,
  )
]
span_sum-le t s (n ∷ rest) h = elim (le-lt-cases t s.start) [
  | inl before ↦ omega (arith, span_sum_before t s (n ∷ rest) before)
  | inr after ↦ omega (
    arith,
    span_sum_after t s (n ∷ rest) after,
    product_bound (min n.start t - s.start) s.rate_ppm h.0.rate_word,
    span_sum-le t n rest h.2,
  )
]

-- The accumulator after one round, with no wrap.
round_exact :
    (end total : ℕ) (s : RateSegment)
    → IsWords s
    → s.start ≤ end
    → end < u64_mod
    → total + (end - s.start) * u64_max < u128_mod
    → add128 total (mul128 (sub64 end s.start) s.rate_ppm) ≡ total + (end - s.start) * s.rate_ppm
round_exact end total s w h e b =
    let product = product_bound (end - s.start) s.rate_ppm w.rate_word in
    rw
      (
        sub64-exact end s.start h e,
        mul128-exact (end - s.start) s.rate_ppm (omega arith),
        add128-exact total ((end - s.start) * s.rate_ppm) (omega arith),
      )
      refl

pub ticks_loop-span_sum :
    (t total : ℕ) (s : RateSegment) (rest : List RateSegment)
    → IsSeries (s ∷ rest)
    → t < u64_mod
    → total + (t - s.start) * u64_max < u128_mod
    → ticks_loop t total (s ∷ rest) ≡ total + span_sum t (s ∷ rest)
unfolding ticks_loop
ticks_loop-span_sum t total s [] h w b = elim (le-lt-cases t s.start) [
  | inl before ↦ rw (le→leb t s.start before, span_sum_before t s [] before) (omega arith)
  | inr after ↦
      rw (lt→leb t s.start after, span_sum_after t s [] after, span_sum-nil t)
        (omega (arith, round_exact t total s h (omega arith) w b))
]
ticks_loop-span_sum t total s (n ∷ rest) h w b = elim (le-lt-cases t s.start) [
  | inl before ↦ rw (le→leb t s.start before, span_sum_before t s (n ∷ rest) before) (omega arith)
  | inr after ↦
      let end = min n.start t in
      let product = product_bound (end - s.start) s.rate_ppm h.0.rate_word in
      rw
        (
          lt→leb t s.start after,
          span_sum_after t s (n ∷ rest) after,
          round_exact end total s h.0 (omega arith) (omega arith) (omega arith),
        )
        (ticks_loop-span_sum t (total + (end - s.start) * s.rate_ppm) n rest h.2 w (omega arith)
          ∙ omega arith)
]
