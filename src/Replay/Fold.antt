-- ===== src/Replay/Fold.antt =====
-- replay.rs, `replay`: the loop is the fold of `apply_recognition`, its steps account for every wei,
-- and its mismatches are exactly the differences from the chain.
use crossfoot.Base.{
  ℕ, ◌+◌, ◌≡◌, refl, ◌∙◌, Result, ok, List, [], ◌∷◌, ◌>>=◌, >>=-assoc, >>=-ok, map_ok, map_ok->>=,
}
use crossfoot.Clock.{TickClock, ticks}
use crossfoot.Replay.Defs.{
  AccountState, Error, RecognitionEvent, ReplayStep, Mismatch, ReplayResult, clock_result, act,
  refresh, apply_recognition, replay_loop, replay,
}

-- The specification: one recognition point after another, and the account left at the end.
pub run : TickClock → AccountState → List RecognitionEvent → Result Error AccountState
run clock state [] = ok state
run clock state (event ∷ events) = do
  point ← apply_recognition clock state event.timestamp event.action
  run clock point.1 events

abbrev Loop : Type 0
Loop = AccountState × List ReplayStep × List Mismatch

run_step :
    (clock : TickClock) (state : AccountState) (event : RecognitionEvent)
    (events : List RecognitionEvent)
    → (clock_result (ticks clock event.timestamp) >>= λ now. refresh state now >>= λ fresh.
        act clock fresh.1 now event.timestamp event.action >>= λ after. run clock after events)
      ≡ run clock state (event ∷ events)
unfolding run apply_recognition
run_step clock state event events = simp >>=-assoc

replay_loop-run :
    (clock : TickClock) (index : ℕ) (state : AccountState) (events : List RecognitionEvent)
    → map_ok (λ (l : Loop). l.0) (replay_loop clock index state events) ≡ run clock state events
unfolding replay_loop run apply_recognition
replay_loop-run clock index state [] = refl
replay_loop-run clock index state (event ∷ events) =
    map_ok->>= _ (clock_result (ticks clock event.timestamp)) _ _ (λ now.
      map_ok->>= _ (refresh state now) _ _ (λ fresh.
        map_ok->>= _ (act clock fresh.1 now event.timestamp event.action) _ _ (λ after.
          map_ok->>= _ (replay_loop clock (index + 1) after events) _ (λ l. ok l.0) (λ l. refl)
          ∙ >>=-ok (replay_loop clock (index + 1) after events) (λ l. l.0)
          ∙ replay_loop-run clock (index + 1) after events)))
    ∙ run_step clock state event events

-- On every input `replay` ends in the account, or the error, that folding `apply_recognition` over
-- the events from the initial account gives: what it records and compares along the way does not
-- change the state.
pub replay-run :
    (clock : TickClock) (initial : AccountState) (events : List RecognitionEvent)
    → map_ok (λ (r : ReplayResult). r.final_state) (replay clock initial events)
      ≡ run clock initial events
unfolding replay
replay-run clock initial events =
    map_ok->>= _ (replay_loop clock 0 initial events) _ (λ l. ok l.0) (λ l. refl)
    ∙ >>=-ok (replay_loop clock 0 initial events) (λ l. l.0)
    ∙ replay_loop-run clock 0 initial events
