-- ===== src/Replay/Interest.antt =====
-- replay.rs, `calculate_interest` and `refresh`.
use native.Mathlib.Nat.{div-div-eq-div-mul, mul-le-mul_right}
use crossfoot.Base.{
  ℕ, ◌+◌, ◌-◌, ◌*◌, ◌/◌, ◌≤◌, ◌<◌, max, ◌≡◌, ◌||◌, arith, ltb, leb, ◌==◌, if◌then◌else◌, ok, err,
  u128_mod,
}
use crossfoot.Clock.{ppm, year_seconds}
use crossfoot.Replay.Defs.{AccountState, interest_overflow, calculate_interest, refresh}

-- The contract's single division by 1e6 * 365 days.
abbrev pub interest : AccountState → ℕ → ℕ
interest account now =
    if leb now account.ticks || account.ticks == 0
    then 0
    else (now - account.ticks) * account.saved / 31_536_000_000_000

-- `calculate_interest` is one floor division of the tick difference times the balance, zero up to
-- the anchor and on an account without one, and an error exactly where the product leaves a u128.
pub calculate_interest-eq :
    (account : AccountState) (now : ℕ)
    → calculate_interest account now ≡ (
        if ltb ((now - account.ticks) * account.saved) u128_mod
        then ok (interest account now)
        else (if leb now account.ticks || account.ticks == 0 then ok 0 else err interest_overflow))
unfolding calculate_interest
calculate_interest-eq account now =
    ground (arith, div-div-eq-div-mul ((now - account.ticks) * account.saved) ppm year_seconds)

-- A later reading never accrues less.
pub calculate_interest_mono :
    (account : AccountState) (s t : ℕ) {m n : ℕ}
    → s ≤ t
    → calculate_interest account s ≡ ok m
    → calculate_interest account t ≡ ok n
    → m ≤ n
unfolding calculate_interest
calculate_interest_mono account s t le p q =
    let elapsed : s - account.ticks ≤ t - account.ticks = omega arith in
    ground (arith, mul-le-mul_right account.saved elapsed)

-- A refresh that succeeds credits exactly the interest of the account, within a u128, and moves the
-- anchor up to the clock, never back.
pub refresh_credits :
    (state : AccountState) (now : ℕ) {earned : ℕ} {after : AccountState}
    → state.saved < u128_mod
    → refresh state now ≡ ok (earned, after)
    → (earned ≡ interest state now)
      × (after.saved ≡ state.saved + earned)
      × (after.saved < u128_mod)
      × (after.ticks ≡ max state.ticks now)
unfolding refresh
refresh_credits state now word h = ground (arith, calculate_interest-eq state now)

-- Where the product and the credited balance fit in a u128, `refresh` succeeds.
pub refresh_succeeds :
    (state : AccountState) (now : ℕ)
    → (now - state.ticks) * state.saved < u128_mod
    → state.saved + interest state now < u128_mod
    → refresh state now
      ≡ ok (
        interest state now,
        record { saved = state.saved + interest state now; ticks = max state.ticks now },
      )
unfolding refresh
refresh_succeeds state now product credit = ground (arith, calculate_interest-eq state now)

-- Refreshing twice at one time is refreshing once: the second recognises nothing.
pub refresh-refresh :
    (state : AccountState) (now : ℕ) {earned : ℕ} {after : AccountState}
    → refresh state now ≡ ok (earned, after)
    → refresh after now ≡ ok (0, after)
unfolding refresh
refresh-refresh state now h = ground arith
