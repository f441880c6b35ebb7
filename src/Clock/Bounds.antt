-- ===== src/Clock/Bounds.antt =====
-- clock.rs, `uint40_violations`: the report is empty exactly when no closed segment accrues more
-- than a uint40 of ticks.
use crossfoot.Base.{
  ℕ, ◌+◌, ◌-◌, ◌*◌, ◌≤◌, ◌<◌, ◌≡◌, ◌↔◌, refl, ap, List, [], ◌∷◌, inl, inr, arith, le-lt-cases,
  lt→ltb, le→ltb, mul128, sub64, mul128-exact, sub64-exact, mul-lt-u128,
}
use crossfoot.Clock.Defs.{RateSegment, TickClock, uint40_max, violations, uint40_violations}
use crossfoot.Clock.Span.{IsSeries, IsWords, span_sum}
use crossfoot.Clock.Crossing.{head-IsWords, span_sum_within, span_sum_beyond}
use crossfoot.Clock.Integral.{IsClock, IsValid, integral, integral-span_sum}

-- Between consecutive starts `total` grows by at most a uint40.
abbrev pub GrowsWithin : (ℕ → ℕ) → List RateSegment → Type 0
GrowsWithin total [] = Unit
GrowsWithin total (a ∷ []) = Unit
GrowsWithin total (a ∷ b ∷ rest) =
    (total b.start ≤ total a.start + uint40_max) × GrowsWithin total (b ∷ rest)

product_exact :
    (a b : RateSegment)
    → IsWords a
    → IsWords b
    → a.start < b.start
    → mul128 (sub64 b.start a.start) a.rate_ppm ≡ (b.start - a.start) * a.rate_ppm
product_exact a b wa wb h =
    rw
      (
        sub64-exact b.start a.start (omega arith) wb.start_word,
        mul128-exact (b.start - a.start) a.rate_ppm (
            mul-lt-u128 (b.start - a.start) a.rate_ppm (omega (arith, wb.start_word)) wa.rate_word),
      )
      refl

-- `total` differs from the spans of what is left by a constant.
abbrev Agrees : (ℕ → ℕ) → ℕ → RateSegment → List RateSegment → Type 0
Agrees total c s rest = (t : ℕ) → s.start ≤ t → total t ≡ c + span_sum t (s ∷ rest)

module _ (total : ℕ → ℕ) where
  growth :
      (c : ℕ) (a b : RateSegment) (rest : List RateSegment)
      → IsSeries (a ∷ b ∷ rest)
      → Agrees total c a (b ∷ rest)
      → (total b.start ≡ total a.start + (b.start - a.start) * a.rate_ppm)
        × Agrees total (c + (b.start - a.start) * a.rate_ppm) b rest
  growth c a b rest h g =
      let at_b = span_sum_within b.start a (b ∷ rest) h (omega arith) in
      let at_a = span_sum_within a.start a (b ∷ rest) h (omega arith) in
      let nothing : a.start - a.start ≡ 0 = omega arith in
      (
        omega (
          arith,
          g b.start (omega arith),
          g a.start (omega arith),
          at_b.0,
          at_a.0,
          ap (λ (x : ℕ). x * a.rate_ppm) nothing,
        ),
        λ t le. omega (arith, g t (omega arith), span_sum_beyond t a b rest h le),
      )

  violations-GrowsWithin :
      (a : RateSegment) (rest : List RateSegment) (c : ℕ)
      → IsSeries (a ∷ rest)
      → Agrees total c a rest
      → (violations (a ∷ rest) ≡ []) ↔ GrowsWithin total (a ∷ rest)
  unfolding violations
  violations-GrowsWithin a [] c h g = (λ _. tt, λ _. refl)
  violations-GrowsWithin a (b ∷ rest) c h g =
      let (grown, next) = growth c a b rest h g in
      let ih = violations-GrowsWithin b rest (c + (b.start - a.start) * a.rate_ppm) h.2 next in
      let product = product_exact a b h.0 (head-IsWords b rest h.2) h.1 in
      elim (le-lt-cases ((b.start - a.start) * a.rate_ppm) uint40_max) [
        | inl within ↦
            rw (product, le→ltb uint40_max ((b.start - a.start) * a.rate_ppm) within)
              (λ none_left. (omega arith, ih.0 none_left), λ all. ih.1 all.1)
        | inr over ↦
            rw (product, lt→ltb uint40_max ((b.start - a.start) * a.rate_ppm) over)
              (λ impossible. cc, λ all. absurd (omega arith))
      ]

of_segments :
    (l : List RateSegment)
    → IsClock l
    → let clock : TickClock = record { segments = l } in
      (uint40_violations clock ≡ []) ↔ GrowsWithin (integral clock) l
unfolding uint40_violations
of_segments [] h = absurd h
of_segments (s ∷ rest) h =
    violations-GrowsWithin (integral (record { segments = s ∷ rest })) s rest 0 h
      (λ t le. omega (arith, integral-span_sum s rest h t))

-- On a valid clock `uint40_violations` is empty exactly when, from each segment's start to the
-- next, the exact ticks grow by at most 2^40 - 1.
pub uint40_violations-GrowsWithin :
    (clock : TickClock)
    → IsValid clock
    → (uint40_violations clock ≡ []) ↔ GrowsWithin (integral clock) clock.segments
uint40_violations-GrowsWithin clock h = of_segments clock.segments h
