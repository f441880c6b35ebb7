-- ===== src/Svzchf/Sweep.antt =====
-- svzchf.rs, `sweep_logs`: the log history in chunks that narrow on failures and widen on successes.
-- The answer to request `n` for a range is a parameter; a log is its first topic, where it has one.
-- A range that the bundle records is kept with the number of its logs, the last one first.
use Prim.Native.Nat.{Ordering}
use Prim.Native.String.{String, compare}
use crossfoot.Base.{
  ℕ, zero, suc, ◌+◌, ◌*◌, ◌/◌, ◌%◌, ◌-◌, Bool, true, false, ◌&&◌, Option, none, some, List, [], ◌∷◌,
  length, min, max, ltb, leb, if◌then◌else◌, add64, sub64, u64_mod, saturating_sub,
}
use crossfoot.Svzchf.{
  Finding, log_sweep_truncated, log_sweep_incomplete, initial_log_chunk, min_log_chunk,
  regrow_after,
}

-- rpc.rs: `RpcErrorKind`.
pub data RpcErrorKind : Type 0 where
  request_too_broad failed offline_miss : RpcErrorKind

-- A fetched result, one without a result, or an error of the transport.
pub data Answer : Type 0 where
  fetched : List (Option String) → Answer
  no_result : String → Answer
  refused : RpcErrorKind → String → Answer

pub record Range : Type 0 where
  pub first : ℕ
  pub last : ℕ
  pub logs : ℕ

pub record ChunkChange : Type 0 where
  pub at_block : ℕ
  pub from_chunk : ℕ
  pub to_chunk : ℕ

pub record Sweep : Type 0 where
  pub chunk : ℕ
  pub cursor : ℕ
  pub chunks_done : ℕ
  pub total_logs : ℕ
  pub topic0_counts : List (String × ℕ)
  pub narrowed_at : List ChunkChange
  pub regrow_events : List ChunkChange
  pub consecutive_ok : ℕ
  pub truncated : Bool
  pub sweep_error : Option String
  pub findings : List Finding
  pub recorded : List Range

-- `*counts.entry(topic).or_insert(0) += 1` of a map that is sorted by its keys.
unfoldable pub count_topic : String → List (String × ℕ) → List (String × ℕ)
count_topic topic [] = (topic, 1) ∷ []
count_topic topic ((key, n) ∷ counts) = elim (compare topic key) [
  | Ordering.lt ↦ (topic, 1) ∷ (key, n) ∷ counts
  | Ordering.eq ↦ (key, n + 1) ∷ counts
  | Ordering.gt ↦ (key, n) ∷ count_topic topic counts
]

unfoldable pub count_topics : List (Option String) → List (String × ℕ) → List (String × ℕ)
unfolding count_topic
count_topics [] counts = counts
count_topics (none ∷ logs) counts = count_topics logs counts
count_topics (some topic ∷ logs) counts = count_topics logs (count_topic topic counts)

-- After enough successes a chunk below the initial one doubles.
unfoldable pub regrow : (initial_chunk : ℕ) → Sweep → Sweep
regrow initial_chunk s =
    let wider = min (s.chunk * 2 % u64_mod) initial_chunk in
    if leb regrow_after s.consecutive_ok && ltb s.chunk initial_chunk
    then record s {
      chunk = wider;
      consecutive_ok = 0;
      regrow_events =
          record { at_block = s.cursor; from_chunk = s.chunk; to_chunk = wider } ∷ s.regrow_events;
    }
    else s

-- The logs of a chunk are counted and recorded, and the cursor moves behind it.
unfoldable pub extend : (chunk_end : ℕ) → List (Option String) → Sweep → Sweep
unfolding count_topics
extend chunk_end logs s = record s {
  total_logs = s.total_logs + length logs;
  topic0_counts = count_topics logs s.topic0_counts;
  recorded = record { first = s.cursor; last = chunk_end; logs = length logs } ∷ s.recorded;
  chunks_done = s.chunks_done + 1;
  cursor = add64 chunk_end 1;
  consecutive_ok = s.consecutive_ok + 1;
}

-- A chunk that was fetched.
unfoldable pub accept : (initial_chunk chunk_end : ℕ) → List (Option String) → Sweep → Sweep
unfolding regrow extend
accept initial_chunk chunk_end logs s = regrow initial_chunk (extend chunk_end logs s)

unfoldable pub narrow : Sweep → Sweep
narrow s =
    let narrower = max (s.chunk / 2) min_log_chunk in
    record s {
      chunk = narrower;
      consecutive_ok = 0;
      narrowed_at =
          record { at_block = s.cursor; from_chunk = s.chunk; to_chunk = narrower } ∷ s.narrowed_at;
    }

unfoldable pub give_up : String → Sweep → Sweep
give_up message s = record s {
  truncated = true;
  sweep_error = some message;
  findings = log_sweep_incomplete s.cursor ∷ s.findings;
}

-- What one round leaves: a state to go on with, or the state at a `break`.
pub data Round : Type 0 where
  on done : Sweep → Round

-- The kinds of error that a smaller request may avoid.
abbrev pub is_narrowable : RpcErrorKind → Bool
is_narrowable offline_miss = false
is_narrowable _ = true

unfoldable pub react : (initial_chunk chunk_end : ℕ) → Answer → Sweep → Round
unfolding accept narrow give_up
react initial_chunk chunk_end (fetched logs) s = on (accept initial_chunk chunk_end logs s)
react initial_chunk chunk_end (no_result message) s = done (give_up message s)
react initial_chunk chunk_end (refused kind message) s =
    if is_narrowable kind && ltb min_log_chunk s.chunk
    then on (narrow s)
    else done (give_up message s)

-- `max_chunks` is reached.
abbrev pub is_spent : Option ℕ → ℕ → Bool
is_spent none chunks_done = false
is_spent (some most) chunks_done = leb most chunks_done

unfoldable pub stop_early : Sweep → Sweep
stop_early s = record s { truncated = true; findings = log_sweep_truncated s.cursor ∷ s.findings }

module _ (fetch : (request first last : ℕ) → Answer) (max_chunks : Option ℕ)
    (to initial_chunk : ℕ) where
  -- One round of the loop, at request `n`.
  unfoldable pub round : ℕ → Sweep → Round
  unfolding react stop_early add64 sub64
  round n s =
      let chunk_end = min (sub64 (add64 s.cursor s.chunk) 1) to in
      if is_spent max_chunks s.chunks_done
      then done (stop_early s)
      else react initial_chunk chunk_end (fetch n s.cursor chunk_end) s

  abbrev pub follow : (Sweep → Option Sweep) → Round → Option Sweep
  follow next (on s) = next s
  follow next (done s) = some s

  -- `while cursor <= to`, on fuel.
  unfoldable pub sweep_loop : (fuel n : ℕ) → Sweep → Option Sweep
  unfolding round
  sweep_loop zero n s = if leb s.cursor to then none else some s
  sweep_loop (suc fuel) n s =
      let more = follow (sweep_loop fuel (suc n)) (round n s) in
      if leb s.cursor to then more else some s

-- `initial_chunk.clamp(MIN_LOG_CHUNK, INITIAL_LOG_CHUNK)`
abbrev pub first_chunk : ℕ → ℕ
first_chunk initial_chunk = min (max initial_chunk min_log_chunk) initial_log_chunk

abbrev pub start : (from initial_chunk : ℕ) → Sweep
start from initial_chunk = record {
  chunk = first_chunk initial_chunk;
  cursor = from;
  chunks_done = 0;
  total_logs = 0;
  topic0_counts = [];
  narrowed_at = [];
  regrow_events = [];
  consecutive_ok = 0;
  truncated = false;
  sweep_error = none;
  findings = [];
  recorded = [];
}

-- Chunks up to this size are asked for.
abbrev pub largest_chunk : ℕ → ℕ
largest_chunk initial_chunk = max initial_chunk initial_log_chunk

-- Every round shortens what is left or the chunk, so this fuel is enough.
unfoldable pub sweep_logs :
    (fetch : (request first last : ℕ) → Answer)
    → (from to : ℕ) → (max_chunks : Option ℕ) → (initial_chunk : ℕ) → Option Sweep
unfolding sweep_loop
sweep_logs fetch from to max_chunks initial_chunk =
    sweep_loop fetch max_chunks to initial_chunk
      ((to + 2 - from) * (largest_chunk initial_chunk + 1)) 0 (start from initial_chunk)

-- The block up to which the summary says that the logs are covered.
abbrev pub covered_to : (to : ℕ) → Sweep → ℕ
covered_to to s = if s.truncated then saturating_sub s.cursor 1 else to
