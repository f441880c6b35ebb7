-- ===== src/Clock/Crossing.antt =====
-- clock.rs, one round of `virtual_accrual_start`: where a segment reaches the anchor, and where not.
use crossfoot.Base.{
  ℕ, ◌+◌, ◌-◌, ◌*◌, ◌≤◌, ◌<◌, min, ◌≡◌, ◌⊎◌, ap, Option, none, some, List, [], ◌∷◌, inl, inr, arith,
  leb, if◌then◌else◌, le-lt-cases, le→leb, lt→leb, u64_max, div_ceil, div_ceil_least,
}
use crossfoot.Clock.Defs.{RateSegment, open_end}
use crossfoot.Clock.Span.{IsSeries, IsWords, span_sum, span_sum_before, span_sum-nil}
use crossfoot.Clock.Integral.{span_sum_from}

-- `t` is the first second up to `not_after` at which `total` reaches the anchor, and there is none
-- where the result is `none`.
abbrev pub FirstReach : (total : ℕ → ℕ) (anchor not_after : ℕ) → Option ℕ → Type 0
FirstReach total anchor not_after none = (t : ℕ) → t ≤ not_after → total t < anchor
FirstReach total anchor not_after (some t) =
    (t ≤ not_after) × (anchor ≤ total t) × ((s : ℕ) → s < t → total s < anchor)

-- Two totals that cross the anchor at the same times.
pub FirstReach-cong :
    (f g : ℕ → ℕ) (anchor na : ℕ) (r : Option ℕ)
    → ((t : ℕ) → ((f t < anchor) × (g t < anchor)) ⊎ (f t ≡ g t))
    → FirstReach g anchor na r
    → FirstReach f anchor na r
FirstReach-cong f g anchor na none same h = λ t le. ground (arith, same t, h t le)
FirstReach-cong f g anchor na (some t) same h =
    (h.0, ground (arith, same t, h.1), λ s lt. ground (arith, same s, h.2 s lt))

pub open_end-le :
    (s : RateSegment) (rest : List RateSegment)
    → IsSeries (s ∷ rest)
    → (s.start ≤ open_end rest) × (open_end rest ≤ u64_max)
open_end-le s [] h = (omega (arith, h.start_word), omega arith)
open_end-le s (n ∷ []) h = (omega arith, omega (arith, h.2.start_word))
open_end-le s (n ∷ m ∷ rest) h = (omega arith, omega (arith, h.2.0.start_word))

pub head-IsWords : (s : RateSegment) (rest : List RateSegment) → IsSeries (s ∷ rest) → IsWords s
head-IsWords s [] h = h
head-IsWords s (n ∷ rest) h = h.0

-- Up to the end of the head's span only the head contributes.
pub span_sum_within :
    (t : ℕ) (s : RateSegment) (rest : List RateSegment)
    → IsSeries (s ∷ rest)
    → t ≤ open_end rest
    → (span_sum t (s ∷ rest) ≡ (t - s.start) * s.rate_ppm) × (span_sum t rest ≡ 0)
span_sum_within t s [] h le = elim (le-lt-cases s.start t) [
  | inl from ↦ (omega (arith, span_sum_from t s [] h from, span_sum-nil t), span_sum-nil t)
  | inr before ↦
      let none_yet : t - s.start ≡ 0 = omega arith in
      (rw none_yet (omega (arith, span_sum_before t s [] (omega arith))), span_sum-nil t)
]
span_sum_within t s (n ∷ rest) h le = elim (le-lt-cases s.start t) [
  | inl from ↦
      let end : min n.start t ≡ t = omega arith in
      let later = span_sum_before t n rest le in
      (omega (arith, rw end at (span_sum_from t s (n ∷ rest) h from), later), later)
  | inr before ↦
      let none_yet : t - s.start ≡ 0 = omega arith in
      (
        rw none_yet (omega (arith, span_sum_before t s (n ∷ rest) (omega arith))),
        span_sum_before t n rest le,
      )
]

-- After it, the whole span and the rest.
pub span_sum_beyond :
    (t : ℕ) (s n : RateSegment) (rest : List RateSegment)
    → IsSeries (s ∷ n ∷ rest)
    → n.start ≤ t
    → span_sum t (s ∷ n ∷ rest) ≡ (n.start - s.start) * s.rate_ppm + span_sum t (n ∷ rest)
span_sum_beyond t s n rest h le =
    let end : min n.start t ≡ n.start = omega arith in
    rw end at (span_sum_from t s (n ∷ rest) h (omega arith))

-- A head whose span reaches the anchor gives the crossing in closed form.
module _ (anchor na acc : ℕ) (s : RateSegment) (rest : List RateSegment) (h : IsSeries (s ∷ rest))
    (below : acc < anchor) (pays : 0 < s.rate_ppm)
    (reaches : anchor ≤ acc + (open_end rest - s.start) * s.rate_ppm) where
  abbrev pub wait : ℕ
  wait = div_ceil (anchor - acc) s.rate_ppm

  pub wait-le : wait ≤ open_end rest - s.start
  wait-le =
      (div_ceil_least (anchor - acc) s.rate_ppm (open_end rest - s.start) pays).1 (omega arith)

  crosses : anchor ≤ acc + span_sum (s.start + wait) (s ∷ rest)
  crosses =
      let inside : s.start + wait ≤ open_end rest = omega (arith, wait-le, open_end-le s rest h) in
      let elapsed : s.start + wait - s.start ≡ wait = omega arith in
      omega (
        arith,
        rw elapsed at (span_sum_within (s.start + wait) s rest h inside).0,
        (div_ceil_least (anchor - acc) s.rate_ppm wait pays).0 (omega arith),
      )

  not_before : (t : ℕ) → t < s.start + wait → acc + span_sum t (s ∷ rest) < anchor
  not_before t lt =
      let inside : t ≤ open_end rest = omega (arith, wait-le, open_end-le s rest h) in
      let head = (span_sum_within t s rest h inside).0 in
      elim (le-lt-cases anchor (acc + span_sum t (s ∷ rest))) [
        | inr under ↦ under
        | inl over ↦
            let early =
              (div_ceil_least (anchor - acc) s.rate_ppm (t - s.start) pays).1 (omega arith) in
            let nothing : t - s.start ≡ 0 → ⊥ =
              λ z. omega (arith, ap (λ (x : ℕ). x * s.rate_ppm) z) in
            elim (le-lt-cases s.start t) [
              | inl from ↦ absurd (omega arith)
              | inr before ↦ absurd (nothing (omega arith))
            ]
      ]

  pub closed_form :
      FirstReach
        (λ t. acc + span_sum t (s ∷ rest))
        anchor
        na
        (if leb (s.start + wait) na then some (s.start + wait) else none)
  closed_form = elim (le-lt-cases (s.start + wait) na) [
    | inl soon ↦ rw (le→leb (s.start + wait) na soon) (soon, crosses, not_before)
    | inr late ↦ rw (lt→leb (s.start + wait) na late) (λ t le. not_before t (omega arith))
  ]
