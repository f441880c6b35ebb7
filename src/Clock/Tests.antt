-- ===== src/Clock/Tests.antt =====
-- The observed rate series of the tests of clock.rs, and the theorems on it.
use crossfoot.Base.{
  ℕ, ◌≡◌, refl, some, [], ◌∷◌, arith, ok, u64_max, add128, mul128, sub128, sub64, saturating_sub,
  div_ceil,
}
use crossfoot.Clock.Defs.{
  TickClock, new, ticks, ticks_loop, rate_at, virtual_accrual_start, start_loop, uint40_violations,
}
use crossfoot.Clock.Crossing.{FirstReach}
use crossfoot.Clock.Integral.{IsClock, IsValid, integral, exact_ticks, ticks-integral}
use crossfoot.Clock.New.{new-IsValid}
use crossfoot.Clock.Inverse.{virtual_accrual_start-FirstReach}

abbrev pub observed : TickClock
observed = record {
  segments =
      record { start = 1747891715; rate_ppm = 30000 }
      ∷ record { start = 1765387379; rate_ppm = 40000 }
      ∷ record { start = 1770732311; rate_ppm = 37500 }
      ∷ record { start = 1774638431; rate_ppm = 35000 }
      ∷ [];
}

run : Unit {0}
unfolding ticks ticks_loop add128 mul128 sub128 sub64 saturating_sub div_ceil start_loop
    virtual_accrual_start uint40_violations rate_at
run = tt

matches_chain : ticks observed 1787911199 ≡ ok 1349693580000
unfolding run
matches_chain = refl

carried_forward : rate_at observed 1765387378 ≡ some 30000
unfolding run
carried_forward = refl

inverts : virtual_accrual_start observed 1349693580000 u64_max ≡ some 1787911199
unfolding run
inverts = refl

pub observed-IsValid : IsValid observed
observed-IsValid = omega arith

ticks-integral_example :
    ticks observed 1787911199 ≡ exact_ticks 1787911199 (integral observed 1787911199)
ticks-integral_example = ticks-integral observed 1787911199 observed-IsValid (omega arith)

-- Two readings of the observed clock, an hour and a day after its origin.
abbrev early : ℕ
early = 1747895315

abbrev late : ℕ
late = 1747978115

early_ticks : ticks observed early ≡ ok 108000000
unfolding run
early_ticks = refl

late_ticks : ticks observed late ≡ ok 2592000000
unfolding run
late_ticks = refl

virtual_accrual_start-FirstReach_example :
    FirstReach
      (integral observed)
      1349693580000
      u64_max
      (virtual_accrual_start observed 1349693580000 u64_max)
virtual_accrual_start-FirstReach_example =
    virtual_accrual_start-FirstReach observed 1349693580000 u64_max observed-IsValid (omega arith)
      (omega arith) (omega arith)

new-IsValid_example :
    ((clock : TickClock)
      → new observed.segments ≡ ok clock
      → IsValid clock × (clock.segments ≡ observed.segments))
    × (IsClock observed.segments → new observed.segments ≡ ok observed)
new-IsValid_example = new-IsValid observed.segments (omega arith)
