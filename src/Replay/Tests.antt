-- ===== src/Replay/Tests.antt =====
-- The account of the tests of replay.rs at block 25853000, a run of three events, and the theorems
-- on them.
use mathlib.Core.List.{map}
use crossfoot.Base.{
  ℕ, ◌+◌, ◌≤◌, min, max, ◌≡◌, ◌↔◌, refl, some, none, List, [], ◌∷◌, arith, ok, All, add128, mul128,
  sub64, try_u64, map_ok,
}
use crossfoot.Clock.{TickClock, ticks, ticks_loop, rate_at, rate_loop, origin}
use crossfoot.Clock.Integral.{integral}
use crossfoot.Wide.{mul_div_floor, mul_full, div_256, div_loop}
use crossfoot.Replay.Defs.{
  AccountState, empty, save, withdraw, RecognitionEvent, ReplayResult, calculate_interest, refresh,
  apply_save, apply_withdraw, act, apply_recognition, compare_interest, replay_loop, replay,
  accrued_at, total_assets, price,
}
use crossfoot.Replay.Interest.{interest}
use crossfoot.Replay.Save.{delay_at, apply_save-between, save-delays}
use crossfoot.Replay.Recognition.{IsAccount, Resets, withdrawn, deposited, apply_recognition_effect}
use crossfoot.Replay.Accounting.{
  paid_in, paid_out, recognised, AgreesWithChain, replay-balances, replay-AgreesWithChain,
}
use crossfoot.Replay.Fold.{run, replay-run}

program : Unit {0}
unfolding ticks ticks_loop rate_at rate_loop add128 mul128 sub64 try_u64 calculate_interest refresh
    apply_save apply_withdraw act apply_recognition compare_interest replay_loop replay accrued_at
    total_assets price mul_div_floor mul_full div_256 div_loop
program = tt

abbrev clock : TickClock
clock = record {
  segments =
      record { start = 1747891715; rate_ppm = 30000 }
      ∷ record { start = 1765387379; rate_ppm = 40000 }
      ∷ record { start = 1770732311; rate_ppm = 37500 }
      ∷ record { start = 1774638431; rate_ppm = 35000 }
      ∷ [];
}

abbrev pinned : AccountState
pinned = record { saved = 81761995488279584010351; ticks = 1346800022157 }

assets_at_pin : total_assets clock pinned 1787911199 ≡ ok 81769497488003849675143
unfolding program
assets_at_pin = refl

price_at_pin : price 81769497488003849675143 80027751992300676663517 ≡ ok 1021764268673581424
unfolding program
price_at_pin = refl

-- A deposit, a second one after the delay, and a withdrawal.
abbrev events : List RecognitionEvent
events =
    record {
      block = 1;
      timestamp = 1760000000;
      action = save 1000000000000000000;
      observed_interest = none;
    }
    ∷ record {
      block = 2;
      timestamp = 1768000000;
      action = save 5;
      observed_interest = some 8192231418061897;
    }
    ∷ record {
      block = 3;
      timestamp = 1768000001;
      action = withdraw 600;
      observed_interest = some 1278782637;
    }
    ∷ []

abbrev first_account : AccountState
first_account = record { saved = 1000000000000000000; ticks = 371024550000 }

abbrev second_account : AccountState
second_account = record { saved = 1008192231418061902; ticks = 629374760000 }

abbrev last_account : AccountState
last_account = record { saved = 1008192232696843939; ticks = 629374800000 }

abbrev outcome : ReplayResult
outcome = record {
  initial = empty;
  final_state = last_account;
  steps =
      record {
        index = 0;
        block = 1;
        timestamp = 1760000000;
        action = save 1000000000000000000;
        ticks_at_event = 363248550000;
        modeled_interest = 0;
        observed_interest = none;
        state_after = first_account;
      }
      ∷ record {
        index = 1;
        block = 2;
        timestamp = 1768000000;
        action = save 5;
        ticks_at_event = 629374760000;
        modeled_interest = 8192231418061897;
        observed_interest = some 8192231418061897;
        state_after = second_account;
      }
      ∷ record {
        index = 2;
        block = 3;
        timestamp = 1768000001;
        action = withdraw 600;
        ticks_at_event = 629374800000;
        modeled_interest = 1278782637;
        observed_interest = some 1278782637;
        state_after = last_account;
      }
      ∷ [];
  interest_mismatches = [];
}

replay-events : replay clock empty events ≡ ok outcome
unfolding program
replay-events = refl

empty-IsAccount : IsAccount empty
empty-IsAccount = omega arith

replay-balances_example :
    IsAccount last_account
    × (last_account.saved + paid_out 0 outcome.steps
        ≡ 0 + recognised outcome.steps + paid_in events)
replay-balances_example = replay-balances clock empty events empty-IsAccount replay-events

replay-AgreesWithChain_example :
    (map (λ s. s.action) outcome.steps ≡ map (λ e. e.action) events)
    × ((outcome.interest_mismatches ≡ []) ↔ All AgreesWithChain outcome.steps)
replay-AgreesWithChain_example =
    replay-AgreesWithChain clock empty events empty-IsAccount replay-events

replay-run_example :
    map_ok (λ (r : ReplayResult). r.final_state) (replay clock empty events)
    ≡ run clock empty events
replay-run_example = replay-run clock empty events

withdraw_point :
    apply_recognition clock second_account 1768000001 (withdraw 600) ≡ ok (1278782637, last_account)
unfolding program
withdraw_point = refl

apply_recognition_effect_example :
    ((now : ℕ) × (ticks clock 1768000001 ≡ ok now)
      × (1278782637 ≡ interest second_account now)
      × Resets
          (withdraw 600)
          (second_account.saved + 1278782637)
          (max second_account.ticks now)
          last_account.ticks)
    × IsAccount last_account
    × (last_account.saved + withdrawn (withdraw 600) (second_account.saved + 1278782637)
        ≡ second_account.saved + 1278782637 + deposited (withdraw 600))
apply_recognition_effect_example =
    apply_recognition_effect clock second_account 1768000001 (withdraw 600) (omega arith)
      withdraw_point

abbrev in_delay : AccountState
in_delay = record { saved = 1000; ticks = 5000000000 }

save_in_delay :
    apply_save in_delay 4000000000 30000 500 ≡ ok (record { saved = 1500; ticks = 7258666666 })
unfolding program
save_in_delay = refl

apply_save-between_example :
    (min 5000000000 (4000000000 + delay_at 30000) ≤ 7258666666)
    × (7258666666 ≤ max 5000000000 (4000000000 + delay_at 30000))
apply_save-between_example = apply_save-between in_delay 4000000000 30000 500 save_in_delay

save-delays_example :
    calculate_interest (record { saved = 1500; ticks = 7258666666 }) 5000000000 ≡ ok 0
save-delays_example =
    save-delays in_delay 4000000000 30000 500 5000000000 save_in_delay (omega arith)

save_first :
    apply_save (record { saved = 0; ticks = 4000000000 }) 4000000000 30000 500
    ≡ ok (record { saved = 500; ticks = 11776000000 })
unfolding program
save_first = refl

abbrev at_pin : ℕ
at_pin = 1349693580000

refresh-pinned :
    refresh pinned at_pin
    ≡ ok (7501999724265664792, record { saved = 81769497488003849675143; ticks = at_pin })
unfolding program
refresh-pinned = refl

abbrev small_clock : TickClock
small_clock = record { segments = record { start = 10; rate_ppm = 30000 } ∷ [] }

abbrev small_account : AccountState
small_account = record { saved = 900000000000; ticks = 60000 }

small_integral : integral small_clock 20 ≡ 300000
unfolding integral rate_at rate_loop origin
small_integral = refl
