-- ===== src/Clock/Defs.antt =====
-- clock.rs: the segments, the clock and its operations.
use crossfoot.Base.{
  ℕ, ◌-◌, ◌%◌, ◌^◌, min, Option, none, some, List, [], ◌∷◌, ltb, leb, ◌==◌, if◌then◌else◌, Result,
  ok, err, u64_max, u64_mod, sub64, saturating_sub, add128, mul128, sub128, try_u64, div_ceil,
}

-- 365 days in seconds.
abbrev pub year_seconds : ℕ
year_seconds = 31_536_000

abbrev pub ppm : ℕ
ppm = 1_000_000

abbrev pub uint40_max : ℕ
uint40_max = 2 ^ 40 - 1

-- Both fields are `u64`: the block timestamp that opened the segment, and its rate.
pub record RateSegment : Type 0 where
  pub start : ℕ
  pub rate_ppm : ℕ

pub record TickClock : Type 0 where
  pub segments : List RateSegment

pub data Error : Type 0 where
  empty_series : Error
  not_ascending : ℕ → ℕ → Error
  ticks_overflow : ℕ → ℕ → Error

-- The loop over `windows(2)` in `new`: the first pair that does not ascend.
unfoldable pub find_descent : List RateSegment → Option Error
find_descent [] = none
find_descent (a ∷ []) = none
find_descent (a ∷ b ∷ rest) =
    if leb b.start a.start then some (not_ascending a.start b.start) else find_descent (b ∷ rest)

abbrev pub reject : Option Error → TickClock → Result Error TickClock
reject none clock = ok clock
reject (some e) clock = err e

unfoldable pub new : List RateSegment → Result Error TickClock
new [] = err empty_series
new (s ∷ rest) = reject (find_descent (s ∷ rest)) (record { segments = s ∷ rest })

-- `segments[0].start`, where `none` is the panic of an empty series
unfoldable pub origin : TickClock → Option ℕ
origin clock = elim clock.segments [ [] ↦ none | s ∷ _ ↦ some s.start ]

-- Where the segment before `rest` ends, as far as `t`.
abbrev pub segment_end : ℕ → List RateSegment → ℕ
segment_end t [] = t
segment_end t (next ∷ _) = min next.start t

unfoldable pub ticks_loop : ℕ → ℕ → List RateSegment → ℕ
ticks_loop t total [] = total
ticks_loop t total (s ∷ rest) =
    if leb t s.start
    then total
    else (ticks_loop t (add128 total (mul128 (sub64 (segment_end t rest) s.start) s.rate_ppm)) rest)

abbrev pub fits_u64 : ℕ → ℕ → Option ℕ → Result Error ℕ
fits_u64 t total none = err (ticks_overflow t total)
fits_u64 t total (some n) = ok n

unfoldable pub ticks : TickClock → ℕ → Result Error ℕ
unfolding try_u64
ticks clock t = let total = ticks_loop t 0 clock.segments in fits_u64 t total (try_u64 total)

unfoldable pub rate_loop : ℕ → ℕ → List RateSegment → ℕ
rate_loop t rate [] = rate
rate_loop t rate (s ∷ rest) = if leb s.start t then rate_loop t s.rate_ppm rest else rate

-- `none` is the panic of `segments[0]` on an empty series.
unfoldable pub rate_at : TickClock → ℕ → Option ℕ
unfolding rate_loop
rate_at clock t = elim clock.segments [
  | [] ↦ none
  | s ∷ rest ↦ some (rate_loop t s.rate_ppm (s ∷ rest))
]

-- Where the segment before `rest` ends: the last one reaches to the largest timestamp.
abbrev pub open_end : List RateSegment → ℕ
open_end [] = u64_max
open_end (next ∷ _) = next.start

-- `accumulated` and the span's product are `u128`; the result is cut to `not_after`.
unfoldable pub start_loop : (anchor not_after accumulated : ℕ) → List RateSegment → Option ℕ
start_loop anchor not_after accumulated [] = none
start_loop anchor not_after accumulated (s ∷ rest) =
    let skipped = start_loop anchor not_after accumulated rest in
    let span = saturating_sub (open_end rest) s.start in
    let reach = add128 accumulated (mul128 span s.rate_ppm) in
    let t = add128 s.start (div_ceil (sub128 anchor accumulated) s.rate_ppm) in
    let later = start_loop anchor not_after reach rest in
    if s.rate_ppm == 0
    then skipped
    else if leb anchor reach
    then (if leb t not_after then some (t % u64_mod) else none)
    else later

unfoldable pub virtual_accrual_start : TickClock → ℕ → ℕ → Option ℕ
virtual_accrual_start clock anchor not_after =
    if anchor == 0 then none else start_loop anchor not_after 0 clock.segments

-- The segments whose tick product leaves the deployed uint40, each with that product.
unfoldable pub violations : List RateSegment → List (RateSegment × ℕ)
violations [] = []
violations (a ∷ []) = []
violations (a ∷ b ∷ rest) =
    let product = mul128 (sub64 b.start a.start) a.rate_ppm in
    if ltb uint40_max product then (a, product) ∷ violations (b ∷ rest) else violations (b ∷ rest)

unfoldable pub uint40_violations : TickClock → List (RateSegment × ℕ)
uint40_violations clock = violations clock.segments
