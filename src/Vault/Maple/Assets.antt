-- ===== src/Vault/Maple/Assets.antt =====
-- maple.rs: the checked sums and divisions against unbounded arithmetic.
use native.Mathlib.Nat.{mul-le-mul_right, mul-le-mul_left, add-zero, zero-mul, div-le_of_le-mul}
use crossfoot.Base.{
  ℕ, zero, suc, ◌+◌, ◌-◌, ◌*◌, ◌/◌, ◌≤◌, ◌<◌, ◌≡◌, ◌∙◌, sym, arith, Option, none, some, List, [],
  ◌∷◌, ltb, if◌then◌else◌, checked_add, checked_sub, u128_mod, u64_mod, inl, inr, le-lt-cases,
  lt→ltb, le→leb, lt→leb, ==-false,
}
use crossfoot.Wide.Floor.{mul_div_floor-floor}
use crossfoot.Vault.Ray.Growth.{floor-some}
use crossfoot.Vault.Maple.{
  precision, accrued_interest, loan_manager_aum, total_assets, convert_to_assets,
}

-- The number if a u128 holds it.
abbrev pub fits : ℕ → Option ℕ
fits n = if ltb n u128_mod then some n else none

abbrev pub sum : List ℕ → ℕ
sum [] = 0
sum (n ∷ ns) = n + sum ns

-- For a balance that fits in a u128, `total_assets` is the exact sum of the balance and every
-- strategy's assets, and `None` exactly where that sum does not fit: no partial sum overflows
-- before the whole does.
pub total_assets-sum :
    (balance : ℕ) (aums : List ℕ)
    → balance < u128_mod
    → total_assets balance aums ≡ fits (balance + sum aums)
unfolding total_assets checked_add
total_assets-sum balance [] h = ground (arith, add-zero balance)
total_assets-sum balance (aum ∷ aums) h = elim (le-lt-cases u128_mod (balance + aum)) [
  | inl over ↦ ground arith
  | inr within ↦
      rw (lt→ltb (balance + aum) u128_mod within)
        (ground (arith, total_assets-sum (balance + aum) aums within))
]

-- The loan manager's assets are the exact sum of its three parts, `None` exactly where it overflows.
pub loan_manager_aum-sum :
    (principal_out accounted_interest accrued : ℕ)
    → loan_manager_aum principal_out accounted_interest accrued
      ≡ fits (principal_out + accounted_interest + accrued)
unfolding loan_manager_aum checked_add
loan_manager_aum-sum principal_out accounted_interest accrued = ground arith

accrued_interest-some :
    (rate domain_start now : ℕ) {a : ℕ}
    → rate < u128_mod
    → now < u64_mod
    → accrued_interest rate now domain_start ≡ some a
    → a ≡ rate * (now - domain_start) / precision
unfolding accrued_interest checked_sub
accrued_interest-some zero domain_start now word late h =
    rw (zero-mul (now - domain_start)) (ground (arith, h))
accrued_interest-some (suc rate) domain_start now {a = a} word late h =
    let positive = ==-false (suc rate) 0 (λ e. omega (arith, e)) in
    elim (le-lt-cases domain_start now) [
      | inl started ↦
          let interval = now - domain_start in
          let exact =
            mul_div_floor-floor (suc rate) interval precision word (omega arith) (omega arith) in
          (floor-some (suc rate * interval) precision
            (sym exact ∙ (rw (positive, le→leb domain_start now started) at h))).0
      | inr early ↦ absurd (cc (rw (positive, lt→leb domain_start now early) at h))
    ]

-- The interest accrues from the start of the domain on and a later block never has less of it; a
-- block before that start has a result only for a rate of zero.
pub accrued_interest_mono :
    (rate domain_start now later : ℕ) {a b : ℕ}
    → rate < u128_mod
    → now ≤ later
    → later < u64_mod
    → accrued_interest rate now domain_start ≡ some a
    → accrued_interest rate later domain_start ≡ some b
    → a ≤ b
unfolding accrued_interest checked_sub
accrued_interest_mono rate domain_start now later {a = a} {b = b} word h late p q =
    let early = accrued_interest-some rate domain_start now word (omega arith) p in
    let after = accrued_interest-some rate domain_start later word late q in
    let longer : now - domain_start ≤ later - domain_start = omega arith in
    omega (arith, early, after, mul-le-mul_left rate longer)

-- Redeeming no more than the supply, where a result is returned, never yields more than the pool's
-- assets, for assets and a supply that fit in a u128.
pub convert_to_assets-le :
    (shares assets total_supply : ℕ) {redeemed : ℕ}
    → assets < u128_mod
    → total_supply < u128_mod
    → shares ≤ total_supply
    → convert_to_assets shares assets total_supply ≡ some redeemed
    → redeemed ≤ assets
unfolding convert_to_assets
convert_to_assets-le shares assets total_supply {redeemed = redeemed} word supply_word h p =
    elim (le-lt-cases total_supply 0) [
      | inl nothing ↦ ground (arith, p, nothing)
      | inr minted ↦
          let positive = ==-false total_supply 0 (λ e. omega (arith, e)) in
          let exact =
            mul_div_floor-floor shares assets total_supply (omega arith) word supply_word in
          let (quotient, _) =
            floor-some (shares * assets) total_supply (sym exact ∙ (rw positive at p)) in
          let bound : shares * assets ≤ total_supply * assets = mul-le-mul_right assets h in
          omega (arith, quotient, div-le_of_le-mul total_supply bound)
    ]
