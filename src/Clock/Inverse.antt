-- ===== src/Clock/Inverse.antt =====
-- clock.rs, `virtual_accrual_start`: the first whole second at which the clock reaches an anchor.
use native.Mathlib.Nat.{mul-le-mul_right}
use crossfoot.Base.{
  ℕ, ◌+◌, ◌-◌, ◌*◌, ◌%◌, ◌≤◌, ◌<◌, ◌≡◌, ◌⊎◌, refl, ap, none, List, [], ◌∷◌, ==-false, ==-true, ◌≢◌,
  inl, inr, arith, le-lt-cases, le→leb, lt→leb, u64_mod, u64_max, add128, mul128, sub128,
  saturating_sub, div_ceil, add128-exact, mul128-exact, sub128-exact,
}
use crossfoot.Clock.Defs.{
  RateSegment, TickClock, segment_end, open_end, start_loop, virtual_accrual_start,
}
use crossfoot.Clock.Span.{IsSeries, span_sum, span_sum-nil, product_bound}
use crossfoot.Clock.Integral.{IsValid, IsClock, integral, integral-span_sum, span_sum_from}
use crossfoot.Clock.Crossing.{
  FirstReach, FirstReach-cong, open_end-le, head-IsWords, span_sum_within, span_sum_beyond, wait-le,
  closed_form,
}

-- The words of one round do not wrap.
reach_exact :
    (acc anchor : ℕ) (s : RateSegment) (rest : List RateSegment)
    → IsSeries (s ∷ rest)
    → anchor < u64_mod
    → acc < anchor
    → add128 acc (mul128 (saturating_sub (open_end rest) s.start) s.rate_ppm)
      ≡ acc + (open_end rest - s.start) * s.rate_ppm
unfolding saturating_sub
reach_exact acc anchor s rest h aw below =
    let ends = open_end-le s rest h in
    let product =
      product_bound (open_end rest - s.start) s.rate_ppm (head-IsWords s rest h).rate_word in
    rw
      (
        mul128-exact (open_end rest - s.start) s.rate_ppm (omega arith),
        add128-exact acc ((open_end rest - s.start) * s.rate_ppm) (omega arith),
      )
      refl

time_exact :
    (anchor acc : ℕ) (s : RateSegment) (k : ℕ) (end : ℕ)
    → acc < anchor
    → anchor < u64_mod
    → s.start ≤ end
    → end ≤ u64_max
    → div_ceil (anchor - acc) s.rate_ppm ≤ end - s.start
    → (add128 s.start (div_ceil (sub128 anchor acc) s.rate_ppm)
        ≡ s.start + div_ceil (anchor - acc) s.rate_ppm)
      × ((s.start + div_ceil (anchor - acc) s.rate_ppm) % u64_mod
          ≡ s.start + div_ceil (anchor - acc) s.rate_ppm)
time_exact anchor acc s k end below aw from to le = (
  rw
      (
        sub128-exact anchor acc (omega arith) (omega arith),
        add128-exact s.start (div_ceil (anchor - acc) s.rate_ppm) (omega arith),
      )
      refl,
  omega arith,
)

module _ (anchor na : ℕ) (nw : na < u64_mod) (aw : anchor < u64_mod) where
  -- The round of a head that reaches the anchor.
  reached :
      (acc : ℕ) (s : RateSegment) (rest : List RateSegment)
      → IsSeries (s ∷ rest)
      → acc < anchor
      → 0 < s.rate_ppm
      → anchor ≤ acc + (open_end rest - s.start) * s.rate_ppm
      → FirstReach
          (λ t. acc + span_sum t (s ∷ rest))
          anchor
          na
          (start_loop anchor na acc (s ∷ rest))
  unfolding start_loop
  reached acc s rest h below pays reaches =
      let ends = open_end-le s rest h in
      let (sum, word) =
        time_exact anchor acc s 0 (open_end rest) below aw ends.0 ends.1
          (wait-le anchor na acc s rest h below pays reaches) in
      let reach = acc + (open_end rest - s.start) * s.rate_ppm in
      rw
        (
          ==-false s.rate_ppm 0 (omega arith),
          reach_exact acc anchor s rest h aw below,
          le→leb anchor reach reaches,
          sum,
          word,
        )
        (closed_form anchor na acc s rest h below pays reaches)

  start_loop-nil : (acc : ℕ) → start_loop anchor na acc [] ≡ none
  unfolding start_loop
  start_loop-nil acc = refl

  -- A head that pays nothing is skipped.
  skip_eq :
      (acc : ℕ) (s : RateSegment) (rest : List RateSegment)
      → s.rate_ppm ≡ 0
      → start_loop anchor na acc (s ∷ rest) ≡ start_loop anchor na acc rest
  unfolding start_loop
  skip_eq acc s rest free = rw (==-true s.rate_ppm 0 free)

  free_total :
      (acc : ℕ) (s : RateSegment) (rest : List RateSegment)
      → IsSeries (s ∷ rest)
      → s.rate_ppm ≡ 0
      → (t : ℕ) → acc + span_sum t (s ∷ rest) ≡ acc + span_sum t rest
  free_total acc s rest h free t = elim (le-lt-cases s.start t) [
    | inl from ↦ omega (
      arith,
      span_sum_from t s rest h from,
      ap (λ (r : ℕ). (segment_end t rest - s.start) * r) free,
    )
    | inr before ↦
        let inside : t ≤ open_end rest = omega (arith, (open_end-le s rest h).0) in
        let within = span_sum_within t s rest h inside in
        omega (arith, within.0, within.1, ap (λ (r : ℕ). (t - s.start) * r) free)
  ]

  -- A head that does not reach the anchor is passed, with its span counted.
  later_eq :
      (acc : ℕ) (s : RateSegment) (rest : List RateSegment)
      → IsSeries (s ∷ rest)
      → acc < anchor
      → 0 < s.rate_ppm
      → acc + (open_end rest - s.start) * s.rate_ppm < anchor
      → start_loop anchor na acc (s ∷ rest)
        ≡ start_loop anchor na (acc + (open_end rest - s.start) * s.rate_ppm) rest
  unfolding start_loop
  later_eq acc s rest h below pays short =
      let reach = acc + (open_end rest - s.start) * s.rate_ppm in
      rw
        (
          ==-false s.rate_ppm 0 (omega arith),
          reach_exact acc anchor s rest h aw below,
          lt→leb anchor reach short,
        )
        refl

  -- Up to the next segment both totals are below the anchor; from there on they agree.
  split :
      (acc : ℕ) (s n : RateSegment) (rest : List RateSegment)
      → IsSeries (s ∷ n ∷ rest)
      → acc + (n.start - s.start) * s.rate_ppm < anchor
      → (t : ℕ)
      → ((acc + span_sum t (s ∷ n ∷ rest) < anchor)
          × (acc + (n.start - s.start) * s.rate_ppm + span_sum t (n ∷ rest) < anchor))
        ⊎ (acc + span_sum t (s ∷ n ∷ rest)
            ≡ acc + (n.start - s.start) * s.rate_ppm + span_sum t (n ∷ rest))
  split acc s n rest h short t = elim (le-lt-cases n.start t) [
    | inl beyond ↦ inr (omega (arith, span_sum_beyond t s n rest h beyond))
    | inr inside ↦
        let within = span_sum_within t s (n ∷ rest) h (omega arith) in
        let sooner : t - s.start ≤ n.start - s.start = omega arith in
        let less = mul-le-mul_right s.rate_ppm sooner in
        inl (omega (arith, within.0, less), omega (arith, within.1))
  ]

  start_loop-FirstReach :
      (s : RateSegment) (rest : List RateSegment) (acc : ℕ)
      → IsSeries (s ∷ rest)
      → acc < anchor
      → FirstReach
          (λ t. acc + span_sum t (s ∷ rest))
          anchor
          na
          (start_loop anchor na acc (s ∷ rest))
  start_loop-FirstReach s [] acc h below = elim (le-lt-cases s.rate_ppm 0) [
    | inl free ↦
        let none_yet = free_total acc s [] h (omega arith) in
        rw (skip_eq acc s [] (omega arith), start_loop-nil acc)
          (λ t le. omega (arith, none_yet t, span_sum-nil t))
    | inr pays ↦ elim (le-lt-cases anchor (acc + (u64_max - s.start) * s.rate_ppm)) [
      | inl reaches ↦ reached acc s [] h below pays reaches
      | inr short ↦
          rw (later_eq acc s [] h below pays short, start_loop-nil)
            (λ t le.
              let inside : t - s.start ≤ u64_max - s.start = omega arith in
              omega (
                arith,
                (span_sum_within t s [] h (omega arith)).0,
                mul-le-mul_right s.rate_ppm inside,
              ))
    ]
  ]
  start_loop-FirstReach s (n ∷ rest) acc h below = elim (le-lt-cases s.rate_ppm 0) [
    | inl free ↦ rw (skip_eq acc s (n ∷ rest) (omega arith)) (
        FirstReach-cong _ _ anchor na _ (λ t. inr (free_total acc s (n ∷ rest) h (omega arith) t))
          (start_loop-FirstReach n rest acc h.2 below))
    | inr pays ↦
        let reach = acc + (n.start - s.start) * s.rate_ppm in
        elim (le-lt-cases anchor reach) [
          | inl reaches ↦ reached acc s (n ∷ rest) h below pays reaches
          | inr short ↦ rw (later_eq acc s (n ∷ rest) h below pays short) (
              FirstReach-cong _ _ anchor na _ (split acc s n rest h short)
                (start_loop-FirstReach n rest reach h.2 short))
        ]
  ]

virtual_eq :
    (l : List RateSegment) (anchor na : ℕ)
    → anchor ≢ 0
    → virtual_accrual_start (record { segments = l }) anchor na ≡ start_loop anchor na 0 l
unfolding virtual_accrual_start
virtual_eq l anchor na nonzero = rw (==-false anchor 0 nonzero)

of_segments :
    (l : List RateSegment) (anchor na : ℕ)
    → IsClock l
    → anchor < u64_mod
    → na < u64_mod
    → anchor ≢ 0
    → let clock : TickClock = record { segments = l } in
      FirstReach (integral clock) anchor na (virtual_accrual_start clock anchor na)
of_segments [] anchor na h aw nw nonzero = absurd h
of_segments (s ∷ rest) anchor na h aw nw nonzero =
    let clock : TickClock = record { segments = s ∷ rest } in
    rw (virtual_eq (s ∷ rest) anchor na nonzero) (
      FirstReach-cong (integral clock) (λ t. 0 + span_sum t (s ∷ rest)) anchor na _
        (λ t. inr (omega (arith, integral-span_sum s rest h t)))
        (start_loop-FirstReach anchor na nw aw s rest 0 h (omega arith)))

-- `virtual_accrual_start` inverts the clock: at a nonzero anchor it returns the first second up to
-- `not_after` at which the exact ticks reach the anchor, and `None` where there is none.
pub virtual_accrual_start-FirstReach :
    (clock : TickClock) (anchor not_after : ℕ)
    → IsValid clock
    → anchor < u64_mod
    → not_after < u64_mod
    → anchor ≢ 0
    → FirstReach (integral clock) anchor not_after (virtual_accrual_start clock anchor not_after)
virtual_accrual_start-FirstReach clock anchor na h aw nw nonzero =
    of_segments clock.segments anchor na h aw nw nonzero
