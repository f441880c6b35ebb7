-- ===== src/Replay/Accounting.antt =====
-- replay.rs, `replay`: what its steps and its mismatches say of the run.
use mathlib.Core.List.{map}
use mathlib.Core.Path.{subst}
use crossfoot.Base.{
  ℕ, ◌+◌, ◌≡◌, ◌↔◌, refl, sym, ap, arith, ok, All, inl, inr, Option-cases, none, some, List, [],
  ◌∷◌, ◌++◌, >>=-eq-ok, ok-injective,
}
use crossfoot.Clock.{TickClock, ticks}
use crossfoot.Replay.Defs.{
  AccountState, Action, RecognitionEvent, ReplayStep, Mismatch, ReplayResult, clock_result, act,
  refresh, apply_recognition, compare_interest, replay_loop, replay,
}
use crossfoot.Replay.Recognition.{IsAccount, deposited, withdrawn, apply_recognition_effect}

-- The interest that the steps record, summed.
abbrev pub recognised : List ReplayStep → ℕ
recognised [] = 0
recognised (step ∷ steps) = step.modeled_interest + recognised steps

-- The deposits of the events, summed.
abbrev pub paid_in : List RecognitionEvent → ℕ
paid_in [] = 0
paid_in (event ∷ events) = deposited event.action + paid_in events

-- What the withdrawals took out, each from the balance of the step before it with its interest.
abbrev pub paid_out : ℕ → List ReplayStep → ℕ
paid_out balance [] = 0
paid_out balance (step ∷ steps) =
    withdrawn step.action (balance + step.modeled_interest) + paid_out step.state_after.saved steps

-- The chain emitted what the model recognised, or emitted nothing where that is zero.
abbrev pub AgreesWithChain : ReplayStep → Type 0
AgreesWithChain step = elim step.observed_interest [
  | some observed ↦ observed ≡ step.modeled_interest
  | none ↦ step.modeled_interest ≡ 0
]

abbrev Loop : Type 0
Loop = AccountState × List ReplayStep × List Mismatch

abbrev step_of : ℕ → RecognitionEvent → ℕ → ℕ → AccountState → ReplayStep
step_of index event now earned after = record {
  index = index;
  block = event.block;
  timestamp = event.timestamp;
  action = event.action;
  ticks_at_event = now;
  modeled_interest = earned;
  observed_interest = event.observed_interest;
  state_after = after;
}

apply_recognition-of :
    (clock : TickClock) (state : AccountState) (time : ℕ) (action : Action) {now : ℕ}
    {fresh : ℕ × AccountState} {after : AccountState}
    → clock_result (ticks clock time) ≡ ok now
    → refresh state now ≡ ok fresh
    → act clock fresh.1 now time action ≡ ok after
    → apply_recognition clock state time action ≡ ok (fresh.0, after)
unfolding apply_recognition
apply_recognition-of clock state time action p q r = rw (p, q, r)

-- One round of a loop that succeeds.
abbrev Round :
    TickClock → ℕ → AccountState → RecognitionEvent → List RecognitionEvent → Loop → Type 0
Round clock index state event events l =
    (now : ℕ) × (earned : ℕ) × (after : AccountState) × (later : Loop) × (apply_recognition clock
        state event.timestamp event.action
      ≡ ok (earned, after))
    × (replay_loop clock (index + 1) after events ≡ ok later)
    × (l ≡ (
      later.0,
      step_of index event now earned after ∷ later.1,
      compare_interest index event earned ++ later.2,
    ))

replay_loop-parts :
    (clock : TickClock) (index : ℕ) (state : AccountState) (event : RecognitionEvent)
    (events : List RecognitionEvent) {l : Loop}
    → replay_loop clock index state (event ∷ events) ≡ ok l
    → Round clock index state event events l
unfolding replay_loop
replay_loop-parts clock index state event events h =
    let (now, read, h₁) = >>=-eq-ok (clock_result (ticks clock event.timestamp)) _ h in
    let (fresh, refreshed, h₂) = >>=-eq-ok (refresh state now) _ h₁ in
    let (after, acted, h₃) = >>=-eq-ok (act clock fresh.1 now event.timestamp event.action) _ h₂ in
    let (later, looped, same) = >>=-eq-ok (replay_loop clock (index + 1) after events) _ h₃ in
    (
      now,
      fresh.0,
      after,
      later,
      apply_recognition-of clock state event.timestamp event.action read refreshed acted,
      looped,
      sym (ok-injective same),
    )

compare_interest-nil :
    (index : ℕ) (event : RecognitionEvent) (now earned : ℕ) (after : AccountState)
    → (compare_interest index event earned ≡ [])
      ↔ AgreesWithChain (step_of index event now earned after)
unfolding compare_interest
compare_interest-nil index event now earned after = elim (Option-cases event.observed_interest) [
  | inl silent ↦ (ground arith, ground arith)
  | inr (o, emitted) ↦ (ground arith, ground arith)
]

nil-append : (l m : List Mismatch) → (l ++ m ≡ []) ↔ ((l ≡ []) × (m ≡ []))
nil-append [] m = (λ h. (refl, h), λ h. h.1)
nil-append (x ∷ l) m = (λ h. cc, λ h. cc)

-- The account at the end, the books, the mismatches and the actions of a loop.
abbrev Accounts : AccountState → List RecognitionEvent → Loop → Type 0
Accounts state events l =
    IsAccount l.0
    × (l.0.saved + paid_out state.saved l.1 ≡ state.saved + recognised l.1 + paid_in events)
    × ((l.2 ≡ []) ↔ All AgreesWithChain l.1)
    × (map (λ s. s.action) l.1 ≡ map (λ e. e.action) events)

replay_loop-nil :
    (clock : TickClock) (index : ℕ) (state : AccountState) {l : Loop}
    → IsAccount state
    → replay_loop clock index state [] ≡ ok l
    → Accounts state [] l
unfolding replay_loop
replay_loop-nil clock index state w h =
    subst (Accounts state []) (ok-injective h) (w, omega arith, (λ _. tt, λ _. refl), refl)

replay_loop-Accounts :
    (clock : TickClock) (index : ℕ) (state : AccountState) (events : List RecognitionEvent)
    {l : Loop}
    → IsAccount state
    → replay_loop clock index state events ≡ ok l
    → Accounts state events l
replay_loop-Accounts clock index state [] w h = replay_loop-nil clock index state w h
replay_loop-Accounts clock index state (event ∷ events) w h =
    let (now, earned, after, later, point, looped, same) =
      replay_loop-parts clock index state event events h in
    let effect = apply_recognition_effect clock state event.timestamp event.action w point in
    let (valid, books, agree, actions) =
      replay_loop-Accounts clock (index + 1) after events effect.1 looped in
    let split = nil-append (compare_interest index event earned) later.2 in
    let first = compare_interest-nil index event now earned after in
    subst (Accounts state (event ∷ events)) (sym same) (
      valid,
      omega (arith, books, effect.2),
      (
        λ none_found. (first.0 (split.0 none_found).0, agree.0 (split.0 none_found).1),
        λ all. split.1 (first.1 all.0, agree.1 all.1),
      ),
      ap (λ (l : List Action). event.action ∷ l) actions,
    )

module _ (clock : TickClock) (initial : AccountState) (events : List RecognitionEvent)
    {r : ReplayResult} (w : IsAccount initial) (h : replay clock initial events ≡ ok r) where
  replayed : Accounts initial events (r.final_state, r.steps, r.interest_mismatches)
  unfolding replay
  replayed =
      let (l, looped, same) = >>=-eq-ok (replay_loop clock 0 initial events) _ h in
      subst
        (λ (q : ReplayResult).
          Accounts initial events (q.final_state, q.steps, q.interest_mismatches))
        (ok-injective same) (replay_loop-Accounts clock 0 initial events w looped)

  -- A replay that succeeds from an account within its widths accounts for every unit of the
  -- balance: what is left and what was withdrawn is what was there, the interest recognised and the
  -- deposits; and the final account is within its widths.
  pub replay-balances :
      IsAccount r.final_state
      × (r.final_state.saved + paid_out initial.saved r.steps
          ≡ initial.saved + recognised r.steps + paid_in events)
  replay-balances = (replayed.0, replayed.1)

  -- A replay that succeeds from an account within its widths records one step for each event, in
  -- order, and its mismatch list is empty exactly when at every step the chain emitted the interest
  -- that the model recognised, or emitted none where the model recognised none.
  pub replay-AgreesWithChain :
      (map (λ s. s.action) r.steps ≡ map (λ e. e.action) events)
      × ((r.interest_mismatches ≡ []) ↔ All AgreesWithChain r.steps)
  replay-AgreesWithChain = (replayed.3, replayed.2)
