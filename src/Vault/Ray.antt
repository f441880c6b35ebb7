-- ===== src/Vault/Ray.antt =====
-- sky.rs, `rpow`: exponentiation by squaring of a ray, rounded half up at every step.
pub mod Powers
pub mod Growth
use crossfoot.Base.{ℕ, zero, suc, ◌/◌, ◌%◌, Option, none, some, ◌==◌, if◌then◌else◌, and_then}
use crossfoot.Wide.{mul_add_div_floor}

abbrev pub ray : ℕ
ray = 1_000_000_000_000_000_000_000_000_000

-- One rounded product of two rays.
unfoldable pub ray_product : ℕ → ℕ → Option ℕ
ray_product a b = mul_add_div_floor a b (ray / 2) ray

-- The body of the `while`: `z` is multiplied by the square of `x` when `n` is odd.
unfoldable pub accumulate : (z x n : ℕ) → Option ℕ
unfolding ray_product
accumulate z x n = if n % 2 == 0 then some z else ray_product z x

-- The `while` on at most `fuel` rounds; each round halves `n`, which is a `u64`.
unfoldable pub rpow_loop : (fuel z x n : ℕ) → Option ℕ
unfolding ray_product accumulate
rpow_loop zero z x n = none
rpow_loop (suc fuel) z x n =
    let rest =
      and_then (ray_product x x)
        (λ x'. and_then (accumulate z x' n) (λ z'. rpow_loop fuel z' x' (n / 2))) in
    if n == 0 then some z else rest

-- 65 rounds of fuel: 64 halvings bring a `u64` to 0, and one more tests it.
unfoldable pub rpow : ℕ → ℕ → Option ℕ
rpow x n =
    if x == 0
    then some (if n == 0 then ray else 0)
    else (rpow_loop 65 (if n % 2 == 0 then ray else x) x (n / 2))
