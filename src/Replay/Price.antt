-- ===== src/Replay/Price.antt =====
-- replay.rs, `accrued_at`, `total_assets` and `price`: the posted figures at a horizon.
use crossfoot.Base.{
  ℕ, ◌+◌, ◌-◌, ◌*◌, ◌/◌, ◌<◌, ◌≡◌, arith, ltb, ◌==◌, if◌then◌else◌, ok, err, u64_mod, u128_mod,
  add128-exact,
}
use crossfoot.Clock.{TickClock}
use crossfoot.Clock.Integral.{IsValid, integral, ticks-integral}
use crossfoot.Wide.Floor.{mul_div_floor-floor}
use crossfoot.Replay.Defs.{AccountState, price_overflow, accrued_at, total_assets, price}
use crossfoot.Replay.Interest.{interest, calculate_interest-eq}

-- On a valid clock the posted total is the balance plus one floor division of the exact integral
-- of the rate since the anchor, wherever that product and the sum fit in a u128.
pub total_assets_eq :
    (clock : TickClock) (state : AccountState) (t : ℕ)
    → IsValid clock
    → t < u64_mod
    → integral clock t < u64_mod
    → (integral clock t - state.ticks) * state.saved < u128_mod
    → state.saved + interest state (integral clock t) < u128_mod
    → total_assets clock state t ≡ ok (state.saved + interest state (integral clock t))
unfolding total_assets accrued_at
total_assets_eq clock state t valid w fits product sum = ground (
  arith,
  ticks-integral clock t valid w,
  calculate_interest-eq state (integral clock t),
  add128-exact state.saved (interest state (integral clock t)) sum,
)

abbrev one_ether : ℕ
one_ether = 1_000_000_000_000_000_000

-- For words, `price` is the floor of assets times 1e18 over the supply, 1e18 for no supply, and an
-- error exactly where that floor does not fit in a u128.
pub price_eq :
    (assets supply : ℕ)
    → assets < u128_mod
    → supply < u128_mod
    → price assets supply ≡ (
        if supply == 0
        then ok one_ether
        else (if ltb (assets * one_ether / supply) u128_mod
            then ok (assets * one_ether / supply)
            else err price_overflow))
unfolding price
price_eq assets supply a s =
    ground (arith, mul_div_floor-floor assets one_ether supply a (omega arith) s)
