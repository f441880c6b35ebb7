-- ===== src/Replay/Recognition.antt =====
-- replay.rs, `apply_recognition`: what one recognition point does to the account.
use crossfoot.Base.{
  ℕ, ◌+◌, ◌<◌, ◌≤◌, min, max, ◌≡◌, ap, ◌∙◌, arith, Result, ok, err, u64_mod, u128_mod, >>=-eq-ok,
  ok-injective, ok_or,
}
use crossfoot.Clock
use crossfoot.Clock.{TickClock, ticks, rate_at}
use crossfoot.Replay.Defs.{
  AccountState, no_segments, Action, save, withdraw, clock_result, act, refresh, apply_recognition,
  apply_withdraw,
}
use crossfoot.Replay.Interest.{interest, refresh_credits}
use crossfoot.Replay.Save.{apply_save_ok}

-- The account fits the widths that the contract stores.
pub record IsAccount (state : AccountState) : Type 0 where
  pub saved_word : state.saved < u128_mod
  pub ticks_word : state.ticks < u64_mod

abbrev pub deposited : Action → ℕ
deposited (save amount) = amount
deposited (withdraw _) = 0

-- What a withdrawal takes out of a balance: never more than it holds.
abbrev pub withdrawn : Action → ℕ → ℕ
withdrawn (save _) balance = 0
withdrawn (withdraw amount) balance = min amount balance

-- A withdrawal of the whole balance resets the anchor, and a smaller one keeps it.
abbrev pub Resets : Action → (balance anchor after_anchor : ℕ) → Type 0
Resets (save _) balance anchor after_anchor = Unit
Resets (withdraw amount) balance anchor after_anchor =
    (balance ≤ amount → after_anchor ≡ 0) × (amount < balance → after_anchor ≡ anchor)

-- An action at a clock reading that does not lie behind the anchor.
act_effect :
    (clock : TickClock) (state : AccountState) (now time : ℕ) (action : Action)
    {after : AccountState}
    → IsAccount state
    → act clock state now time action ≡ ok after
    → IsAccount after
      × (after.saved + withdrawn action state.saved ≡ state.saved + deposited action)
      × Resets action state.saved state.ticks after.ticks
unfolding act apply_withdraw
act_effect clock state now time (save amount) w h =
    let (rate, known, saved) = >>=-eq-ok (ok_or no_segments (rate_at clock time)) _ h in
    let facts = apply_save_ok state now rate amount saved in
    (record { saved_word = facts.3; ticks_word = facts.5 }, omega arith, tt)
act_effect clock state now time (withdraw amount) w h =
    (ground arith, ground arith, (λ p. ground arith, λ p. ground arith))

ticks-word : (clock : TickClock) (t : ℕ) {n : ℕ} → ticks clock t ≡ ok n → n < u64_mod
unfolding ticks
ticks-word clock t h = ground arith

clock_result-eq-ok :
    {A : Type 0} (r : Result Clock.Error A) {a : A} → clock_result r ≡ ok a → r ≡ ok a
clock_result-eq-ok (ok a) h = cc
clock_result-eq-ok (err e) h = cc

-- One recognition point, taken apart: the clock reading, the refresh, and the action.
pub apply_recognition-parts :
    (clock : TickClock) (state : AccountState) (time : ℕ) (action : Action) {earned : ℕ}
    {after : AccountState}
    → apply_recognition clock state time action ≡ ok (earned, after)
    → (now : ℕ) × (fresh : AccountState) × (ticks clock time ≡ ok now)
      × (refresh state now ≡ ok (earned, fresh))
      × (act clock fresh now time action ≡ ok after)
unfolding apply_recognition
apply_recognition-parts clock state time action h =
    let (now, read, h₁) = >>=-eq-ok (clock_result (ticks clock time)) _ h in
    let (fresh, refreshed, h₂) = >>=-eq-ok (refresh state now) _ h₁ in
    let (after, acted, same) = >>=-eq-ok (act clock fresh.1 now time action) _ h₂ in
    let pair = ok-injective same in
    (
      now,
      fresh.1,
      clock_result-eq-ok (ticks clock time) read,
      refreshed ∙ ap (λ e. ok (e, fresh.1)) (ap (λ (p : ℕ × AccountState). p.0) pair),
      acted ∙ ap ok (ap (λ (p : ℕ × AccountState). p.1) pair),
    )

-- A recognition point that succeeds credits exactly the interest due at the clock's reading, then
-- the deposit, or takes out the withdrawal as far as the balance goes; nothing else moves the
-- balance, and the account keeps to its widths. A withdrawal of the whole balance resets the anchor
-- to zero, and a smaller one leaves it where the refresh put it.
pub apply_recognition_effect :
    (clock : TickClock) (state : AccountState) (time : ℕ) (action : Action) {earned : ℕ}
    {after : AccountState}
    → IsAccount state
    → apply_recognition clock state time action ≡ ok (earned, after)
    → ((now : ℕ) × (ticks clock time ≡ ok now)
        × (earned ≡ interest state now)
        × Resets action (state.saved + earned) (max state.ticks now) after.ticks)
      × IsAccount after
      × (after.saved + withdrawn action (state.saved + earned)
          ≡ state.saved + earned + deposited action)
apply_recognition_effect clock state time action w h =
    let (now, fresh, read, refreshed, acted) = apply_recognition-parts clock state time action h in
    let credits = refresh_credits state now w.saved_word refreshed in
    let fresh_account : IsAccount fresh = record {
      saved_word = credits.2;
      ticks_word = omega (arith, credits.3, ticks-word clock time read, w.ticks_word);
    } in
    let effect = act_effect clock fresh now time action fresh_account acted in
    let resets = rw (credits.1, credits.3) at effect.2 in
    ((now, read, credits.0, resets), effect.0, rw credits.1 at effect.1)
