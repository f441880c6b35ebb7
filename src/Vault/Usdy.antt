-- ===== src/Vault/Usdy.antt =====
-- usdy.rs: the daily ranges of the USDY oracle, the price at a time, and the chain of closes.
pub mod Rounding
pub mod Latest
pub mod Closes
use crossfoot.Base.{
  ℕ, ◌+◌, ◌-◌, ◌/◌, ◌%◌, Option, none, some, List, [], ◌∷◌, leb, ◌==◌, not, Bool, true,
  if◌then◌else◌, and_then, checked_sub, try_u64, add128, add64, sub64,
}
use crossfoot.Base.Options.{◌>>=◌}
use crossfoot.Wide.{mul_div_floor, mul_add_div_floor}
use crossfoot.Vault.Ray.{ray, rpow}

abbrev pub day : ℕ
day = 86_400

-- `index`, `start` and `end` are `u64`, the two others `u128`.
pub record Range : Type 0 where
  pub index : ℕ
  pub start : ℕ
  pub end : ℕ
  pub daily_ir : ℕ
  pub prev_close : ℕ

-- Half up to a multiple of 1e10; the sum is an unchecked `u128` addition.
unfoldable pub round_to_8 : ℕ → ℕ
unfolding add128
round_to_8 value =
    let remainder = value % 10_000_000_000 in
    let base = value - remainder in
    if leb 5_000_000_000 remainder then add128 base 10_000_000_000 else base

-- The daily rate over 365 days, in basis points.
unfoldable pub apy_bps : ℕ → Option ℕ
unfolding checked_sub try_u64
apy_bps daily_ir = do
  yearly ← rpow daily_ir 365
  excess ← checked_sub yearly ray
  bps ← mul_add_div_floor excess 10_000 (ray / 2) ray
  try_u64 bps

unfoldable pub derive_price : Range → ℕ → Option ℕ
unfolding checked_sub round_to_8 add64
derive_price range t = do
  elapsed ← checked_sub t range.start
  grown ← rpow range.daily_ir (add64 (elapsed / day) 1)
  price ← mul_div_floor grown range.prev_close ray
  some (round_to_8 price)

-- `iter().rev().find(|r| r.start <= t)`: the last range that has started.
unfoldable pub find_started : List Range → ℕ → Option Range
find_started [] t = none
find_started (r ∷ rest) t = elim (find_started rest t) [
  | some later ↦ some later
  | none ↦ if leb r.start t then some r else none
]

unfoldable pub price_at : List Range → ℕ → Option ℕ
unfolding find_started derive_price sub64
price_at ranges t = and_then (find_started ranges t) (λ range.
    if leb range.end t then derive_price range (sub64 range.end 1) else derive_price range t)

-- `left != Some(right)`
abbrev pub differs : Option ℕ → ℕ → Bool
differs none right = true
differs (some left) right = not (left == right)

unfoldable pub close_chain_breaks : List Range → List ℕ
unfolding derive_price sub64
close_chain_breaks [] = []
close_chain_breaks (a ∷ []) = []
close_chain_breaks (a ∷ b ∷ rest) =
    let later = close_chain_breaks (b ∷ rest) in
    if differs (derive_price a (sub64 a.end 1)) b.prev_close then b.index ∷ later else later
