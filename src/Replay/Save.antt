-- ===== src/Replay/Save.antt =====
-- replay.rs, `apply_save` and `apply_withdraw`: the balance-weighted delay.
use native.Mathlib.Nat.{div-add-mod, mod-lt, mul-le-mul_left, mul-div_cancel_left}
use crossfoot.Base.{
  ℕ, ◌+◌, ◌-◌, ◌*◌, ◌/◌, ◌≤◌, ◌<◌, max, min, ◌≡◌, ap, ◌∙◌, arith, ok, u64_mod, u128_mod,
  le-lt-cases, inl, inr,
}
use crossfoot.Replay.Defs.{AccountState, apply_save, interest_delay, calculate_interest}

-- The delay, in ticks, that a deposit buys at a rate.
abbrev pub delay_at : ℕ → ℕ
delay_at rate = rate * interest_delay

-- The two delays, weighted by the balances that carry them.
abbrev pub delayed_total : AccountState → ℕ → ℕ → ℕ → ℕ
delayed_total state now rate amount =
    state.saved * (state.ticks - now) + amount * rate * interest_delay

-- A save that succeeds: the deposit is credited in full, and the new delay is the floor of the
-- weighted average.
pub apply_save_ok :
    (state : AccountState) (now rate amount : ℕ) {after : AccountState}
    → apply_save state now rate amount ≡ ok after
    → (now ≤ state.ticks)
      × (after.saved ≡ state.saved + amount)
      × (0 < after.saved)
      × (after.saved < u128_mod)
      × (after.ticks ≡ now + delayed_total state now rate amount / (state.saved + amount))
      × (after.ticks < u64_mod)
unfolding apply_save
apply_save_ok state now rate amount h = ground arith

-- Where every intermediate product and sum fits, `apply_save` succeeds with that account.
pub apply_save_succeeds :
    (state : AccountState) (now rate amount : ℕ)
    → now ≤ state.ticks
    → 0 < state.saved + amount
    → state.saved + amount < u128_mod
    → amount * rate < u128_mod
    → delayed_total state now rate amount < u128_mod
    → now + delayed_total state now rate amount / (state.saved + amount) < u64_mod
    → apply_save state now rate amount
      ≡ ok (record {
        saved = state.saved + amount;
        ticks = now + delayed_total state now rate amount / (state.saved + amount);
      })
unfolding apply_save
apply_save_succeeds state now rate amount behind nonzero balance purchase total fits = ground arith

-- The floor of a weighted average lies between the two values averaged.
average_le : (s a u v m : ℕ) → 0 < s + a → u ≤ m → v ≤ m → (s * u + a * v) / (s + a) ≤ m
average_le s a u v m h hu hv = elim (le-lt-cases ((s * u + a * v) / (s + a)) m) [
  | inl fine ↦ fine
  | inr over ↦
      let over' : m + 1 ≤ (s * u + a * v) / (s + a) = omega arith in
      absurd (
        omega (
          arith,
          div-add-mod (s * u + a * v) (s + a),
          mul-le-mul_left (s + a) over',
          mul-le-mul_left s hu,
          mul-le-mul_left a hv,
        ))
]

le_average : (s a u v m : ℕ) → 0 < s + a → m ≤ u → m ≤ v → m ≤ (s * u + a * v) / (s + a)
le_average s a u v m h hu hv = elim (le-lt-cases m ((s * u + a * v) / (s + a))) [
  | inl fine ↦ fine
  | inr under ↦
      let under' : (s * u + a * v) / (s + a) + 1 ≤ m = omega arith in
      absurd (
        omega (
          arith,
          div-add-mod (s * u + a * v) (s + a),
          mod-lt (s * u + a * v) h,
          mul-le-mul_left (s + a) under',
          mul-le-mul_left s hu,
          mul-le-mul_left a hv,
        ))
]

-- A save never leaves a delay outside the one that was left and the one that it buys: the new
-- anchor lies between the old anchor and the clock plus three days at the current rate.
pub apply_save-between :
    (state : AccountState) (now rate amount : ℕ) {after : AccountState}
    → apply_save state now rate amount ≡ ok after
    → (min state.ticks (now + delay_at rate) ≤ after.ticks)
      × (after.ticks ≤ max state.ticks (now + delay_at rate))
apply_save-between state now rate amount h =
    let facts = apply_save_ok state now rate amount h in
    let s = state.saved in
    let u = state.ticks - now in
    let v = delay_at rate in
    let nonzero : 0 < s + amount = omega arith in
    let regroup : delayed_total state now rate amount ≡ s * u + amount * v = omega arith in
    let anchor = rw regroup at facts.4 in
    (
      omega (
        arith,
        facts.0,
        anchor,
        le_average s amount u v (min u v) nonzero (omega arith) (omega arith),
      ),
      omega (
        arith,
        facts.0,
        anchor,
        average_le s amount u v (max u v) nonzero (omega arith) (omega arith),
      ),
    )

-- A save into an account without a balance, if it succeeds, leaves the amount as the balance and a
-- delay of exactly three days at the current rate.
pub first_save :
    (state : AccountState) (now rate amount : ℕ) {after : AccountState}
    → state.saved ≡ 0
    → apply_save state now rate amount ≡ ok after
    → (after.saved ≡ amount) × (after.ticks ≡ now + delay_at rate)
first_save state now rate amount zero_saved h =
    let facts = apply_save_ok state now rate amount h in
    let balance : state.saved + amount ≡ amount = omega arith in
    let weights : delayed_total state now rate amount ≡ amount * (rate * interest_delay) =
      omega (arith, ap (λ (x : ℕ). x * (state.ticks - now)) zero_saved) in
    let nonzero : 0 < amount = omega arith in
    let average = rw (weights, balance) at facts.4 in
    (omega arith, average ∙ ap (λ t. now + t) (mul-div_cancel_left (delay_at rate) nonzero))

-- After a save no interest accrues before the earlier of the old anchor and the end of three days
-- at the current rate, both in ticks.
pub save-delays :
    (state : AccountState) (now rate amount t : ℕ) {after : AccountState}
    → apply_save state now rate amount ≡ ok after
    → t ≤ min state.ticks (now + delay_at rate)
    → calculate_interest after t ≡ ok 0
unfolding calculate_interest
save-delays state now rate amount t h le =
    ground (arith, apply_save-between state now rate amount h)
