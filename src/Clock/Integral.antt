-- ===== src/Clock/Integral.antt =====
-- clock.rs, `ticks` against `rate_at`: the tick clock is the exact integral, second by second, of
-- the rate in force.
use native.Mathlib.Nat.{add-zero, add-suc}
use crossfoot.Base.{
  ℕ, or_zero, zero, suc, ◌+◌, ◌-◌, ◌*◌, ◌≤◌, ◌<◌, min, ◌≡◌, sym, ap, List, [], ◌∷◌, inl, inr, arith,
  ltb, if◌then◌else◌, le-lt-cases, le→leb, lt→leb, lt→ltb, le→ltb, u64_mod, ok, err, Result,
  Bool-cases,
}
use crossfoot.Clock.Defs.{
  RateSegment, TickClock, Error, ticks_overflow, segment_end, ticks, rate_loop, rate_at, origin,
}
use crossfoot.Clock.Span.{
  IsSeries, span_sum, span_sum_before, span_sum_after, span_sum-nil, ticks_loop-span_sum,
}

-- A clock that `new` can have built from `u64` fields.
abbrev pub IsClock : List RateSegment → Type 0
IsClock [] = ⊥
IsClock (s ∷ rest) = IsSeries (s ∷ rest)

abbrev pub IsValid : TickClock → Type 0
IsValid clock = IsClock clock.segments

-- The rate that accrues during the second after `t`: none before the clock's origin.
unfoldable pub rate_in_force : TickClock → ℕ → ℕ
rate_in_force clock t = if ltb t (or_zero (origin clock)) then 0 else or_zero (rate_at clock t)

-- The sum of the rates over every second before `t`.
unfoldable pub integral : TickClock → ℕ → ℕ
unfolding rate_in_force
integral clock zero = 0
integral clock (suc t) = integral clock t + rate_in_force clock t

-- From the head's start on, its own contribution and the rest's.
pub span_sum_from :
    (t : ℕ) (s : RateSegment) (rest : List RateSegment)
    → IsSeries (s ∷ rest)
    → s.start ≤ t
    → span_sum t (s ∷ rest) ≡ (segment_end t rest - s.start) * s.rate_ppm + span_sum t rest
span_sum_from t s rest h from = elim (le-lt-cases t s.start) [
  | inl before ↦ at_start rest h before
  | inr after ↦ span_sum_after t s rest after
]
  where
    at_start :
        (rest : List RateSegment)
        → IsSeries (s ∷ rest)
        → t ≤ s.start
        → span_sum t (s ∷ rest) ≡ (segment_end t rest - s.start) * s.rate_ppm + span_sum t rest
    at_start [] h before =
        let none_yet : t - s.start ≡ 0 = omega arith in
        omega (
          arith,
          span_sum_before t s [] before,
          span_sum-nil t,
          ap (λ (x : ℕ). x * s.rate_ppm) none_yet,
        )
    at_start (n ∷ rest) h before =
        let none_yet : min n.start t - s.start ≡ 0 = omega arith in
        omega (
          arith,
          span_sum_before t s (n ∷ rest) before,
          span_sum_before t n rest (omega arith),
          ap (λ (x : ℕ). x * s.rate_ppm) none_yet,
        )

-- One more second adds the rate that the loop of `rate_at` finds.
pub span_sum-suc :
    (t : ℕ) (s : RateSegment) (rest : List RateSegment)
    → IsSeries (s ∷ rest)
    → s.start ≤ t
    → span_sum (suc t) (s ∷ rest) ≡ span_sum t (s ∷ rest) + rate_loop t s.rate_ppm rest
unfolding rate_loop
span_sum-suc t s [] h from =
    let longer : suc t - s.start ≡ suc (t - s.start) = omega arith in
    omega (
      arith,
      span_sum_from (suc t) s [] h (omega arith),
      span_sum_from t s [] h from,
      span_sum-nil t,
      span_sum-nil (suc t),
      ap (λ (x : ℕ). x * s.rate_ppm) longer,
    )
span_sum-suc t s (n ∷ rest) h from = elim (le-lt-cases n.start t) [
  | inl reached ↦
      let same : min n.start (suc t) ≡ min n.start t = omega arith in
      rw (le→leb n.start t reached) (
        omega (
          arith,
          span_sum_from (suc t) s (n ∷ rest) h (omega arith),
          span_sum_from t s (n ∷ rest) h from,
          span_sum-suc t n rest h.2 reached,
          ap (λ (x : ℕ). (x - s.start) * s.rate_ppm) same,
        ))
  | inr ahead ↦
      let longer : min n.start (suc t) - s.start ≡ suc (min n.start t - s.start) = omega arith in
      rw (lt→leb n.start t ahead) (
        omega (
          arith,
          span_sum_from (suc t) s (n ∷ rest) h (omega arith),
          span_sum_from t s (n ∷ rest) h from,
          span_sum_before t n rest (omega arith),
          span_sum_before (suc t) n rest (omega arith),
          ap (λ (x : ℕ). x * s.rate_ppm) longer,
        ))
]

module _ (s : RateSegment) (rest : List RateSegment) (h : IsSeries (s ∷ rest)) where
  abbrev built : TickClock
  built = record { segments = s ∷ rest }

  rate_in_force_from : (t : ℕ) → s.start ≤ t → rate_in_force built t ≡ rate_loop t s.rate_ppm rest
  unfolding rate_in_force rate_at origin rate_loop
  rate_in_force_from t from = rw (le→ltb t s.start from, le→leb s.start t from)

  rate_in_force_before : (t : ℕ) → t < s.start → rate_in_force built t ≡ 0
  unfolding rate_in_force origin
  rate_in_force_before t before = rw (lt→ltb t s.start before)

  pub integral-span_sum : (t : ℕ) → integral built t ≡ span_sum t (s ∷ rest)
  unfolding integral
  integral-span_sum zero = sym (span_sum_before 0 s rest (omega arith))
  integral-span_sum (suc t) = elim (le-lt-cases s.start t) [
    | inl from ↦
        rw (rate_in_force_from t from, integral-span_sum t) (sym (span_sum-suc t s rest h from))
    | inr before ↦
        rw (rate_in_force_before t before, integral-span_sum t)
          (omega
            (arith, span_sum_before t s rest (omega arith), span_sum_before (suc t) s rest before))
  ]

  ticks-span_sum :
      (t : ℕ)
      → t < u64_mod
      → ticks built t ≡ (
          if ltb (span_sum t (s ∷ rest)) u64_mod
          then ok (span_sum t (s ∷ rest))
          else err (ticks_overflow t (span_sum t (s ∷ rest))))
  unfolding ticks
  ticks-span_sum t w =
      let loop = ticks_loop-span_sum t 0 s rest h w (omega arith) in
      let plain : 0 + span_sum t (s ∷ rest) ≡ span_sum t (s ∷ rest) = omega arith in
      rw (loop, plain)
        (elim (Bool-cases (ltb (span_sum t (s ∷ rest)) u64_mod)) [
          | inl fits ↦ rw fits
          | inr over ↦ rw over
        ])

-- What `ticks` is to return where the exact value is `n`.
abbrev pub exact_ticks : ℕ → ℕ → Result Error ℕ
exact_ticks t n = if ltb n u64_mod then ok n else err (ticks_overflow t n)

of_segments :
    (l : List RateSegment) (t : ℕ)
    → IsClock l
    → t < u64_mod
    → let clock : TickClock = record { segments = l } in
      ticks clock t ≡ exact_ticks t (integral clock t)
of_segments [] t h w = absurd h
of_segments (s ∷ rest) t h w = rw (integral-span_sum s rest h t) (ticks-span_sum s rest h t w)

-- On a valid clock `ticks` at a `u64` timestamp is the integral of the rate in force over the
-- seconds before it, or the overflow error where that does not fit in a `u64`.
pub ticks-integral :
    (clock : TickClock) (t : ℕ)
    → IsValid clock
    → t < u64_mod
    → ticks clock t ≡ exact_ticks t (integral clock t)
ticks-integral clock t h w = of_segments clock.segments t h w

-- So `ticks` never falls as time goes on, and stays at zero up to the origin.
integral_mono : (clock : TickClock) (s k : ℕ) → integral clock s ≤ integral clock (s + k)
unfolding integral
integral_mono clock s zero = rw add-zero (omega arith)
integral_mono clock s (suc k) = rw add-suc (omega (arith, integral_mono clock s k))

pub integral-le : (clock : TickClock) (s t : ℕ) → s ≤ t → integral clock s ≤ integral clock t
integral-le clock s t h =
    let e : s + (t - s) ≡ t = omega arith in rw e at (integral_mono clock s (t - s))

-- `ticks` is monotone: two readings of a valid clock that both succeed are in the order of their
-- timestamps.
pub ticks-le :
    (clock : TickClock) (s t : ℕ) {m n : ℕ}
    → IsValid clock
    → s ≤ t
    → t < u64_mod
    → ticks clock s ≡ ok m
    → ticks clock t ≡ ok n
    → m ≤ n
ticks-le clock s t h le w p q = ground (
  arith,
  ticks-integral clock s h (omega arith),
  ticks-integral clock t h w,
  integral-le clock s t le,
)
