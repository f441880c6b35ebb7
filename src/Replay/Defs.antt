-- ===== src/Replay/Defs.antt =====
-- replay.rs: the account, its operations, and the replay over a list of events.
use crossfoot.Base.{
  ℕ, ◌+◌, ◌-◌, ◌/◌, ◌||◌, not, Option, none, some, List, [], ◌∷◌, ◌++◌, ltb, leb, ◌==◌,
  if◌then◌else◌, Result, ok, err, ◌>>=◌, ok_or, and_then, add128, checked_add, checked_mul, try_u64,
}
use crossfoot.Clock
use crossfoot.Clock.{TickClock, ppm, year_seconds, ticks, rate_at}
use crossfoot.Wide.{mul_div_floor}

-- 3 days in seconds.
abbrev pub interest_delay : ℕ
interest_delay = 259_200

-- `saved` is a `u128` and `ticks` a `u64`.
pub record AccountState : Type 0 where
  pub saved : ℕ
  pub ticks : ℕ

abbrev pub empty : AccountState
empty = record { saved = 0; ticks = 0 }

pub data Action : Type 0 where
  save withdraw : ℕ → Action

pub record RecognitionEvent : Type 0 where
  pub block : ℕ
  pub timestamp : ℕ
  pub action : Action
  pub observed_interest : Option ℕ

-- A decimal string of the source is the number that it writes.
pub record ReplayStep : Type 0 where
  pub index : ℕ
  pub block : ℕ
  pub timestamp : ℕ
  pub action : Action
  pub ticks_at_event : ℕ
  pub modeled_interest : ℕ
  pub observed_interest : Option ℕ
  pub state_after : AccountState

-- An entry of `interest_mismatches`; `none` is the JSON null, which comes with the note.
pub record Mismatch : Type 0 where
  pub index : ℕ
  pub block : ℕ
  pub timestamp : ℕ
  pub modeled : ℕ
  pub observed : Option ℕ

pub record ReplayResult : Type 0 where
  pub initial : AccountState
  pub final_state : AccountState
  pub steps : List ReplayStep
  pub interest_mismatches : List Mismatch

-- One constructor for each message; `no_segments` is the panic of an index into an empty clock.
pub data Error : Type 0 where
  clock_error : Clock.Error → Error
  no_segments interest_overflow saved_overflow anchor_behind delay_overflow purchase_overflow :
      Error
  delay_sum_overflow balance_overflow zero_save average_too_wide anchor_overflow : Error
  price_overflow : Error

abbrev pub clock_result : {A : Type 0} → Result Clock.Error A → Result Error A
clock_result (ok a) = ok a
clock_result (err e) = err (clock_error e)

unfoldable pub calculate_interest : AccountState → ℕ → Result Error ℕ
unfolding checked_mul
calculate_interest account ticks_now =
    if leb ticks_now account.ticks || account.ticks == 0 then ok 0 else (do
      numerator ← ok_or interest_overflow (checked_mul (ticks_now - account.ticks) account.saved)
      ok (numerator / ppm / year_seconds))

-- The interest recognised, and the account after it.
unfoldable pub refresh : AccountState → ℕ → Result Error (ℕ × AccountState)
unfolding checked_add
refresh state ticks_now = if leb ticks_now state.ticks then ok (0, state) else (do
  earned ← calculate_interest state ticks_now
  credited ←
      if ltb 0 earned then ok_or saved_overflow (checked_add state.saved earned) else ok state.saved
  ok (earned, record { saved = credited; ticks = ticks_now }))

unfoldable pub apply_save : AccountState → ℕ → ℕ → ℕ → Result Error AccountState
unfolding checked_add checked_mul try_u64
apply_save state ticks_now rate_ppm amount =
    if ltb state.ticks ticks_now then err anchor_behind else (do
      unexpired ← ok (state.ticks - ticks_now)
      delayed ← ok_or delay_overflow (checked_mul state.saved unexpired)
      bought ←
          ok_or purchase_overflow
            (and_then (checked_mul amount rate_ppm) (λ v. checked_mul v interest_delay))
      numerator ← ok_or delay_sum_overflow (checked_add delayed bought)
      denominator ← ok_or balance_overflow (checked_add state.saved amount)
      weighted ← if denominator == 0 then err zero_save else ok (numerator / denominator)
      weighted ← ok_or average_too_wide (try_u64 weighted)
      anchor ← ok_or anchor_overflow (try_u64 (ticks_now + weighted))
      ok (record { saved = denominator; ticks = anchor }))

-- A full withdrawal deletes the account.
unfoldable pub apply_withdraw : AccountState → ℕ → AccountState
apply_withdraw state amount =
    if leb state.saved amount then empty else record state { saved = state.saved - amount }

-- The action of an event, at the ticks and the time of its recognition point.
unfoldable pub act : TickClock → AccountState → ℕ → ℕ → Action → Result Error AccountState
act clock state ticks_now timestamp (save amount) = do
  rate ← ok_or no_segments (rate_at clock timestamp)
  apply_save state ticks_now rate amount
act clock state ticks_now timestamp (withdraw amount) = ok (apply_withdraw state amount)

-- One recognition point, in the contract's order: refresh, then the action.
unfoldable pub apply_recognition :
    TickClock → AccountState → ℕ → Action → Result Error (ℕ × AccountState)
apply_recognition clock state timestamp action = do
  ticks_now ← clock_result (ticks clock timestamp)
  refreshed ← refresh state ticks_now
  after ← act clock refreshed.1 ticks_now timestamp action
  ok (refreshed.0, after)

abbrev pub mismatch : ℕ → RecognitionEvent → ℕ → Mismatch
mismatch index event recognised = record {
  index = index;
  block = event.block;
  timestamp = event.timestamp;
  modeled = recognised;
  observed = event.observed_interest;
}

-- The comparison with what the chain emitted: at most one entry.
unfoldable pub compare_interest : ℕ → RecognitionEvent → ℕ → List Mismatch
compare_interest index event recognised = elim event.observed_interest [
  | some observed ↦
      if not (observed == recognised) then mismatch index event recognised ∷ [] else []
  | none ↦ if ltb 0 recognised then mismatch index event recognised ∷ [] else []
]

-- The loop over the events from `index` on: the final account, with the steps and the mismatches
-- that it pushes, in order.
unfoldable pub replay_loop :
    TickClock
    → ℕ
    → AccountState
    → List RecognitionEvent
    → Result Error (AccountState × List ReplayStep × List Mismatch)
replay_loop clock index state [] = ok (state, [], [])
replay_loop clock index state (event ∷ events) = do
  ticks_now ← clock_result (ticks clock event.timestamp)
  refreshed ← refresh state ticks_now
  after ← act clock refreshed.1 ticks_now event.timestamp event.action
  later ← replay_loop clock (index + 1) after events
  ok (
    later.0,
    record {
      index = index;
      block = event.block;
      timestamp = event.timestamp;
      action = event.action;
      ticks_at_event = ticks_now;
      modeled_interest = refreshed.0;
      observed_interest = event.observed_interest;
      state_after = after;
    }
        ∷ later.1,
    compare_interest index event refreshed.0 ++ later.2,
  )

unfoldable pub replay : TickClock → AccountState → List RecognitionEvent → Result Error ReplayResult
replay clock initial events = do
  run ← replay_loop clock 0 initial events
  ok (record { initial = initial; final_state = run.0; steps = run.1; interest_mismatches = run.2 })

-- The interest accrued at a horizon, without recognising it.
unfoldable pub accrued_at : TickClock → AccountState → ℕ → Result Error ℕ
accrued_at clock state timestamp = do
  ticks_now ← clock_result (ticks clock timestamp)
  calculate_interest state ticks_now

-- The sum is an unchecked `u128` addition.
unfoldable pub total_assets : TickClock → AccountState → ℕ → Result Error ℕ
unfolding add128
total_assets clock state timestamp = do
  accrued ← accrued_at clock state timestamp
  ok (add128 state.saved accrued)

unfoldable pub price : ℕ → ℕ → Result Error ℕ
price assets total_supply =
    if total_supply == 0
    then ok 1_000_000_000_000_000_000
    else ok_or price_overflow (mul_div_floor assets 1_000_000_000_000_000_000 total_supply)
