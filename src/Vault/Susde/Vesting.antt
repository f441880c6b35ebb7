-- ===== src/Vault/Susde/Vesting.antt =====
-- susde.rs, `unvested` and `total_assets`: a reward vests linearly, and the posted total only grows.
use native.Mathlib.Nat.{mul-le-mul_right, zero-mul}
use crossfoot.Base.{
  ℕ, ◌-◌, ◌*◌, ◌/◌, ◌≤◌, ◌<◌, ◌≡◌, arith, ok, u128_mod, saturating_sub, checked_sub, le-lt-cases,
  inl, inr, le→leb, lt→leb, lt→ltb, refl,
}
use crossfoot.Wide.Floor.{mul_div_floor-floor}
use crossfoot.Vault.Susde.{vesting_period, unvested, total_assets}

-- The share of a reward that has not vested `now`, rounded down.
abbrev pub remaining : ℕ → ℕ → ℕ → ℕ
remaining amount last now = (vesting_period - (now - last)) * amount / vesting_period

share-le : (p amount : ℕ) → p ≤ vesting_period → p * amount / vesting_period ≤ amount
share-le p amount h =
    let bound : p * amount ≤ vesting_period * amount = mul-le-mul_right amount h in omega arith

-- For every reward that fits in a u128, `unvested` is the share of it for the seconds left of the
-- eight hours, rounded down, and zero from then on: the product does not overflow, so
-- `unwrap_or(0)` is never taken.
pub unvested-remaining :
    (amount last now : ℕ) → amount < u128_mod → unvested amount last now ≡ remaining amount last now
unfolding unvested saturating_sub
unvested-remaining amount last now word =
    let dt = now - last in
    let exact =
      mul_div_floor-floor (vesting_period - dt) amount vesting_period (omega arith) word
        (omega arith) in
    let bound = share-le (vesting_period - dt) amount (omega arith) in
    elim (le-lt-cases vesting_period dt) [
      | inl over ↦
          let none_left : vesting_period - dt ≡ 0 = omega arith in
          rw (le→leb vesting_period dt over, none_left, zero-mul amount) (omega arith)
      | inr within ↦
          rw
            (
              lt→leb vesting_period dt within,
              exact,
              lt→ltb (remaining amount last now) u128_mod (omega (arith, bound)),
            )
            refl
    ]

-- It is at most the reward, and a later time never has more of it.
pub unvested-antitone :
    (amount last now later : ℕ)
    → amount < u128_mod
    → now ≤ later
    → (unvested amount last later ≤ unvested amount last now) × (unvested amount last now ≤ amount)
unvested-antitone amount last now later word h =
    let early = unvested-remaining amount last now word in
    let late = unvested-remaining amount last later word in
    let less : vesting_period - (later - last) ≤ vesting_period - (now - last) = omega arith in
    let products = mul-le-mul_right amount less in
    (
      omega (arith, early, late, products),
      omega (arith, early, share-le (vesting_period - (now - last)) amount (omega arith)),
    )

-- While the balance holds the last reward, which fits in a u128, the total is posted at every time,
-- a later time never posts less, and it never exceeds the balance.
pub total_assets_grows :
    (balance amount last now later : ℕ)
    → amount < u128_mod
    → amount ≤ balance
    → now ≤ later
    → (a : ℕ) × (b : ℕ) × (total_assets balance (unvested amount last now) ≡ ok a)
      × (total_assets balance (unvested amount last later) ≡ ok b)
      × (a ≤ b)
      × (b ≤ balance)
unfolding total_assets checked_sub
total_assets_grows balance amount last now later word held h =
    let (falls, bound) = unvested-antitone amount last now later word h in
    (
      balance - unvested amount last now,
      balance - unvested amount last later,
      ground (arith, falls, bound, held),
      ground (arith, falls, bound, held),
      omega (arith, falls),
      omega arith,
    )
