-- ===== src/Vault/Usdy/Rounding.antt =====
-- usdy.rs, `round_to_8`: the nearest multiple of 1e10.
use crossfoot.Base.{ℕ, ◌+◌, ◌%◌, ◌≤◌, ◌<◌, ◌≡◌, arith, u128_mod, add128}
use crossfoot.Vault.Usdy.{round_to_8}

-- The result is a multiple of 1e10 no further than half a step from the value, and a value half a
-- step below a multiple goes up, wherever the next multiple fits in a u128.
pub round_to_8-nearest :
    (value : ℕ)
    → value + 10_000_000_000 < u128_mod
    → (round_to_8 value % 10_000_000_000 ≡ 0)
      × (round_to_8 value ≤ value + 5_000_000_000)
      × (value < round_to_8 value + 5_000_000_000)
unfolding round_to_8 add128
round_to_8-nearest value h = (ground arith, ground arith, ground arith)
