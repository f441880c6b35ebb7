-- ===== src/Clock.antt =====
-- The tick clock: cli/src/model/clock.rs. A tick is one part per million of annual rate held for
-- one second; the clock is the series of administered rates, and `ticks` integrates it.
mod Defs
pub mod Span
pub mod Integral
pub mod Bounds
pub mod Crossing
pub mod Inverse
pub mod New
mod Tests
pub use Defs.{
  year_seconds, ppm, uint40_max, RateSegment, TickClock, Error, empty_series, not_ascending,
  ticks_overflow,
}
unfoldable pub use Defs.{
  new, origin, ticks, rate_at, virtual_accrual_start, uint40_violations, ticks_loop, rate_loop,
  start_loop,
}
