-- ===== src/Svzchf.antt =====
-- svzchf.rs: the search for the deployment block and the sweep over the module's logs. Reading the
-- chain is a parameter; writing the bundle is taken to succeed, and what is written is a list.
pub mod Deployment
pub mod Sweep
pub mod Coverage
mod Tests
use Prim.Native.Nat.{Ordering}
use Prim.Native.String.{String, compare}
use crossfoot.Base.{
  ℕ, zero, suc, ◌+◌, ◌-◌, ◌*◌, ◌/◌, ◌<◌, Bool, true, false, Option, none, some, List, [], ◌∷◌,
  length, min, max, ltb, leb, if◌then◌else◌, add64, sub64, u64_mod, saturating_sub, Result, ok, err,
  map_ok,
}

abbrev pub initial_log_chunk : ℕ
initial_log_chunk = 10_000

abbrev pub min_log_chunk : ℕ
min_log_chunk = 500

abbrev pub regrow_after : ℕ
regrow_after = 20

-- The findings that the search and the sweep add to the bundle.
pub data Finding : Type 0 where
  no_code_at_pinned_block code_at_genesis : Finding
  log_sweep_truncated log_sweep_incomplete : (block : ℕ) → Finding

-- The half to go on with.
abbrev pub go_on :
    {E : Type 0} → Result E Bool → (below above : Option (Result E ℕ)) → Option (Result E ℕ)
go_on (ok true) below above = below
go_on (ok false) below above = above
go_on (err e) below above = some (err e)

-- `while high - low > 1`. A probe tells whether a block has code, or fails; the outer option is the
-- fuel.
unfoldable pub search :
    {E : Type 0} → (ℕ → Result E Bool) → (fuel low high : ℕ) → Option (Result E ℕ)
search probe zero low high = if ltb 1 (sub64 high low) then none else some (ok high)
search probe (suc fuel) low high =
    let mid = low + sub64 high low / 2 in
    let below = search probe fuel low mid in
    let above = search probe fuel mid high in
    let next = go_on (probe mid) below above in
    if ltb 1 (sub64 high low) then next else some (ok high)

abbrev pub Located : Type 0 → Type 0
Located E = Option (Result E (Option ℕ × List Finding))

abbrev pub found : {E : Type 0} → Option (Result E ℕ) → Located E
found none = none
found (some r) = some (map_ok (λ block. (some block, [])) r)

-- What the probe at block 0 leads to, at a block `upper` with code.
abbrev pub from_genesis :
    {E : Type 0} → (ℕ → Result E Bool) → (upper : ℕ) → Result E Bool → Located E
from_genesis probe upper (err e) = some (err e)
from_genesis probe upper (ok true) = some (ok (none, code_at_genesis ∷ []))
from_genesis probe upper (ok false) = found (search probe 64 0 upper)

abbrev pub from_upper : {E : Type 0} → (ℕ → Result E Bool) → (upper : ℕ) → Result E Bool → Located E
from_upper probe upper (err e) = some (err e)
from_upper probe upper (ok false) = some (ok (none, no_code_at_pinned_block ∷ []))
from_upper probe upper (ok true) = from_genesis probe upper (probe 0)

unfoldable pub find_deployment_block : {E : Type 0} → (ℕ → Result E Bool) → (upper : ℕ) → Located E
unfolding search
find_deployment_block probe upper = from_upper probe upper (probe upper)
