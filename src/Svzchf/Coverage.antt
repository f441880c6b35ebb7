-- ===== src/Svzchf/Coverage.antt =====
-- svzchf.rs, `sweep_logs`: the sweep ends, and what it says it covered was covered.
use Prim.Native.String.{String}
use native.Mathlib.Nat.{mul-le-mul_right}
use crossfoot.Base.{
  ℕ, zero, suc, ◌+◌, ◌-◌, ◌*◌, ◌≤◌, ◌<◌, ◌≡◌, ◌⊎◌, inl, inr, refl, arith, true, false, ◌&&◌, Option,
  some, List, [], ◌∷◌, min, ltb, leb, Bool-cases, u64_mod, add64, sub64, saturating_sub,
  add64-exact, sub64-exact, le-lt-cases, le→leb, lt→leb,
}
use crossfoot.Svzchf.{min_log_chunk, regrow_after}
use crossfoot.Svzchf.Sweep.{
  Answer, fetched, no_result, refused, Range, Sweep, Round, on, done, regrow, extend, accept,
  narrow, give_up, stop_early, is_narrowable, is_spent, react, round, follow, sweep_loop,
  sweep_logs, start, largest_chunk, covered_to,
}

-- The ranges, the last one first, follow each other from `from` up to before `cursor`.
abbrev pub Tiles : (from : ℕ) → List Range → (cursor : ℕ) → Type 0
Tiles from [] cursor = cursor ≡ from
Tiles from (r ∷ ranges) cursor =
    (cursor ≡ r.last + 1) × (r.first ≤ r.last) × Tiles from ranges r.first

unfoldable pub logs_in : List Range → ℕ
logs_in [] = 0
logs_in (r ∷ ranges) = r.logs + logs_in ranges

-- A sweep that is still going on.
abbrev pub IsGoing : (from to initial_chunk : ℕ) → Sweep → Type 0
IsGoing from to initial_chunk s =
    Tiles from s.recorded s.cursor
    × (s.total_logs ≡ logs_in s.recorded)
    × (s.cursor ≤ to + 1)
    × (min_log_chunk ≤ s.chunk)
    × (s.chunk ≤ largest_chunk initial_chunk)
    × (s.truncated ≡ false)

-- A sweep that stopped early where it was.
abbrev IsStopped : (from : ℕ) → Sweep → Type 0
IsStopped from s =
    Tiles from s.recorded s.cursor × (s.total_logs ≡ logs_in s.recorded) × (s.truncated ≡ true)

-- What is left to do.
left : (to initial_chunk : ℕ) → Sweep → ℕ
left to initial_chunk s = (to + 1 - s.cursor) * (largest_chunk initial_chunk + 1) + s.chunk

regrow-IsGoing :
    (from to initial_chunk : ℕ) (s : Sweep)
    → IsGoing from to initial_chunk s
    → 2 * largest_chunk initial_chunk < u64_mod
    → IsGoing from to initial_chunk (regrow initial_chunk s)
      × ((regrow initial_chunk s).cursor ≡ s.cursor)
unfolding regrow
regrow-IsGoing from to initial_chunk s (tiles, total, within, least, most, going) word =
    elim (Bool-cases (leb regrow_after s.consecutive_ok && ltb s.chunk initial_chunk)) [
      | inr keep ↦ rw keep ((tiles, total, within, least, most, going), refl)
      | inl wider ↦
          let below : s.chunk < initial_chunk = ground arith in
          rw wider ((tiles, total, within, omega arith, omega arith, going), refl)
    ]

-- What one round leaves.
abbrev Progresses : (from to initial_chunk : ℕ) → Sweep → Round → Type 0
Progresses from to initial_chunk s (on s') =
    IsGoing from to initial_chunk s' × (left to initial_chunk s' < left to initial_chunk s)
Progresses from to initial_chunk s (done s') = IsStopped from s'

extend-IsGoing :
    (from to initial_chunk chunk_end : ℕ) (logs : List (Option String)) (s : Sweep)
    → IsGoing from to initial_chunk s
    → to + 1 < u64_mod
    → s.cursor ≤ chunk_end
    → chunk_end ≤ to
    → IsGoing from to initial_chunk (extend chunk_end logs s)
      × ((extend chunk_end logs s).cursor ≡ chunk_end + 1)
unfolding extend logs_in
extend-IsGoing from to initial_chunk chunk_end logs s (tiles, total, _, least, most, going) word h
      k =
    let next = add64-exact chunk_end 1 (omega arith) in
    (((next, h, tiles), omega (arith, total), omega (arith, next, k), least, most, going), next)

accept-Progresses :
    (from to initial_chunk chunk_end : ℕ) (logs : List (Option String)) (s : Sweep)
    → IsGoing from to initial_chunk s
    → 2 * largest_chunk initial_chunk < u64_mod
    → to + 1 < u64_mod
    → s.cursor ≤ chunk_end
    → chunk_end ≤ to
    → Progresses from to initial_chunk s (on (accept initial_chunk chunk_end logs s))
unfolding accept left
accept-Progresses from to initial_chunk chunk_end logs s going word word' h k =
    let (extended, moved) = extend-IsGoing from to initial_chunk chunk_end logs s going word' h k in
    let ((tiles, total, within, least, most, still), kept) =
      regrow-IsGoing from to initial_chunk (extend chunk_end logs s) extended word in
    let after = regrow initial_chunk (extend chunk_end logs s) in
    let fewer : to + 1 - after.cursor + 1 ≤ to + 1 - s.cursor = omega (arith, moved, kept, h, k) in
    let product = mul-le-mul_right (largest_chunk initial_chunk + 1) fewer in
    ((tiles, total, within, least, most, still), omega (arith, product, most))

narrow-Progresses :
    (from to initial_chunk : ℕ) (s : Sweep)
    → IsGoing from to initial_chunk s
    → min_log_chunk < s.chunk
    → Progresses from to initial_chunk s (on (narrow s))
unfolding narrow left
narrow-Progresses from to initial_chunk s (tiles, total, within, least, most, going) h =
    ((tiles, total, within, omega arith, omega arith, going), omega arith)

react-Progresses :
    (from to initial_chunk chunk_end : ℕ) (answer : Answer) (s : Sweep)
    → IsGoing from to initial_chunk s
    → 2 * largest_chunk initial_chunk < u64_mod
    → to + 1 < u64_mod
    → s.cursor ≤ chunk_end
    → chunk_end ≤ to
    → Progresses from to initial_chunk s (react initial_chunk chunk_end answer s)
unfolding react give_up
react-Progresses from to initial_chunk chunk_end (fetched logs) s going word word' h k =
    accept-Progresses from to initial_chunk chunk_end logs s going word word' h k
react-Progresses from to initial_chunk chunk_end (no_result message) s going word word' h k =
    (going.0, going.1, refl)
react-Progresses from to initial_chunk chunk_end (refused kind message) s going word word' h k =
    elim (Bool-cases (is_narrowable kind && ltb min_log_chunk s.chunk)) [
      | inl room ↦
          let large : min_log_chunk < s.chunk = ground arith in
          rw room (narrow-Progresses from to initial_chunk s going large)
      | inr none_left ↦ rw none_left (going.0, going.1, refl)
    ]

module _ (fetch : (request first last : ℕ) → Answer) (max_chunks : Option ℕ)
    (from to initial_chunk : ℕ) where
  round-Progresses :
      (n : ℕ) (s : Sweep)
      → IsGoing from to initial_chunk s
      → s.cursor ≤ to
      → to + 1 + 2 * largest_chunk initial_chunk < u64_mod
      → Progresses from to initial_chunk s (round fetch max_chunks to initial_chunk n s)
  unfolding round stop_early
  round-Progresses n s going h word =
      let (_, _, _, least, most, _) = going in
      let sum = add64-exact s.cursor s.chunk (omega arith) in
      let back = sub64-exact (add64 s.cursor s.chunk) 1 (omega (arith, sum)) (omega (arith, sum)) in
      let chunk_end = min (sub64 (add64 s.cursor s.chunk) 1) to in
      elim (Bool-cases (is_spent max_chunks s.chunks_done)) [
        | inl spent ↦ rw spent (going.0, going.1, refl)
        | inr more ↦ rw more (
            react-Progresses from to initial_chunk chunk_end (fetch n s.cursor chunk_end) s going
              (omega arith) (omega arith) (omega (arith, sum, back)) (omega arith))
      ]

Tiles-le : (from : ℕ) (ranges : List Range) (cursor : ℕ) → Tiles from ranges cursor → from ≤ cursor
Tiles-le from [] cursor e = omega (arith, e)
Tiles-le from (r ∷ ranges) cursor (e, h, tiles) =
    omega (arith, e, h, Tiles-le from ranges r.first tiles)

room :
    (from to initial_chunk : ℕ)
    → from ≤ to
    → left to initial_chunk (start from initial_chunk)
      ≤ (to + 2 - from) * (largest_chunk initial_chunk + 1)
unfolding left
room from to initial_chunk h =
    let more : to + 1 - from + 1 ≤ to + 2 - from = omega arith in
    let product = mul-le-mul_right (largest_chunk initial_chunk + 1) more in omega (arith, product)

-- A sweep that has ended: stopped early, or behind the last block.
abbrev Ended : (from to : ℕ) → Sweep → Type 0
Ended from to s =
    Tiles from s.recorded s.cursor
    × (s.total_logs ≡ logs_in s.recorded)
    × ((s.truncated ≡ true) ⊎ ((s.truncated ≡ false) × (s.cursor ≡ to + 1)))

module _ (fetch : (request first last : ℕ) → Answer) (max_chunks : Option ℕ)
    (from to initial_chunk : ℕ) where
  sweep_loop-Ended :
      (fuel n : ℕ) (s : Sweep)
      → IsGoing from to initial_chunk s
      → to + 1 + 2 * largest_chunk initial_chunk < u64_mod
      → left to initial_chunk s ≤ fuel
      → (s' : Sweep) × (sweep_loop fetch max_chunks to initial_chunk fuel n s ≡ some s')
        × Ended from to s'
  unfolding sweep_loop left
  sweep_loop-Ended zero n s (_, _, _, least, _, _) word enough =
      absurd (omega (arith, enough, least))
  sweep_loop-Ended (suc fuel) n s going word enough = elim (le-lt-cases s.cursor to) [
    | inr over ↦
        let at_end : s.cursor ≡ to + 1 = omega (arith, over, going.2) in
        (s, rw (lt→leb s.cursor to over) refl, (going.0, going.1, inr (going.5, at_end)))
    | inl within ↦
        let progress =
          round-Progresses fetch max_chunks from to initial_chunk n s going within word in
        rw (le→leb s.cursor to within) (
          after_round fuel (suc n) s (round fetch max_chunks to initial_chunk n s) progress enough
            (λ s' going' less. sweep_loop-Ended fuel (suc n) s' going' word less))
  ]
    where
      after_round :
          (fuel n : ℕ) (s : Sweep) (r : Round)
          → Progresses from to initial_chunk s r
          → left to initial_chunk s ≤ suc fuel
          → ((s' : Sweep)
              → IsGoing from to initial_chunk s'
              → left to initial_chunk s' ≤ fuel
              → (s'' : Sweep) × (sweep_loop fetch max_chunks to initial_chunk fuel n s' ≡ some s'')
                × Ended from to s'')
          → (s'' : Sweep) × (follow fetch max_chunks to initial_chunk
                (sweep_loop fetch max_chunks to initial_chunk fuel n)
                r
              ≡ some s'')
            × Ended from to s''
      after_round fuel n s (on s') (going', less) enough next =
          next s' going' (omega (arith, less, enough))
      after_round fuel n s (done s') (tiles, total, stopped) enough next =
          (s', refl, (tiles, total, inl stopped))

  -- Over a range that is not empty, does not begin at block 0 and leaves room in a `u64` for the next
  -- chunk: the sweep ends within its fuel; the ranges that it recorded follow each other without a gap or an
  -- overlap from the first block to the block that it says it covered; the count of its logs is that
  -- of the recorded ranges; and a sweep that is not marked truncated covered every block.
  pub sweep_logs-Tiles :
      0 < from
      → from ≤ to
      → to + 1 + 2 * largest_chunk initial_chunk < u64_mod
      → (s : Sweep) × (sweep_logs fetch from to max_chunks initial_chunk ≡ some s)
        × Tiles from s.recorded (covered_to to s + 1)
        × (s.total_logs ≡ logs_in s.recorded)
        × (s.truncated ≡ false → Tiles from s.recorded (to + 1))
  unfolding sweep_logs logs_in
  sweep_logs-Tiles some_block h word =
      let begin = start from initial_chunk in
      let enough = room from to initial_chunk h in
      let (s, e, (tiles, total, how)) =
        sweep_loop-Ended ((to + 2 - from) * (largest_chunk initial_chunk + 1)) 0 begin
          (refl, refl, omega arith, omega arith, omega arith, refl) word enough in
      let first = Tiles-le from s.recorded s.cursor tiles in
      elim how [
        | inl early ↦
            let back : s.cursor - 1 + 1 ≡ s.cursor = omega (arith, first, some_block) in
            (s, e, rw early (unfold saturating_sub in (rw back tiles)), total, λ going. cc)
        | inr (going, at_end) ↦
            let all = rw at_end at tiles in (s, e, rw going all, total, λ _. all)
      ]
