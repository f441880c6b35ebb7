-- ===== src/Vault/Usdy/Latest.antt =====
-- usdy.rs, `price_at`: which range prices a time.
use crossfoot.Base.{
  ℕ, ◌-◌, ◌≤◌, ◌<◌, ◌≡◌, refl, arith, min, none, some, List, [], ◌∷◌, ◌++◌, All, sub64, sub64-exact,
  u64_mod, ap, le→leb, lt→leb, le-lt-cases, inl, inr,
}
use crossfoot.Vault.Usdy.{Range, derive_price, find_started, price_at}

find_started-none :
    (later : List Range) (t : ℕ) → All (λ r. t < r.start) later → find_started later t ≡ none
unfolding find_started
find_started-none [] t h = refl
find_started-none (r ∷ rest) t (h, hs) = rw (find_started-none rest t hs, lt→leb r.start t h) refl

find_started_last :
    (earlier : List Range) (r : Range) (later : List Range) (t : ℕ)
    → r.start ≤ t
    → All (λ s. t < s.start) later
    → find_started (earlier ++ (r ∷ later)) t ≡ some r
unfolding find_started
find_started_last [] r later t h hs = rw (find_started-none later t hs, le→leb r.start t h) refl
find_started_last (e ∷ earlier) r later t h hs = rw (find_started_last earlier r later t h hs) refl

-- Where a range has started at `t` and every later one has not, and the range's end is a nonzero
-- `u64`, the price at `t` is that of this range, at `t` itself while it runs and at its last second
-- from its end on; the ranges before it do not matter.
pub price_at-latest :
    (earlier : List Range) (r : Range) (later : List Range) (t : ℕ)
    → r.start ≤ t
    → 0 < r.end
    → r.end < u64_mod
    → All (λ s. t < s.start) later
    → price_at (earlier ++ (r ∷ later)) t ≡ derive_price r (min t (r.end - 1))
unfolding price_at
price_at-latest earlier r later t h positive word hs =
    rw (find_started_last earlier r later t h hs) (elim (le-lt-cases r.end t) [
      | inl over ↦
          let last : sub64 r.end 1 ≡ min t (r.end - 1) =
            omega (arith, sub64-exact r.end 1 positive word) in
          rw (le→leb r.end t over, last) refl
      | inr running ↦
          let last : t ≡ min t (r.end - 1) = omega arith in
          rw (lt→leb r.end t running) (ap (derive_price r) last)
    ])

-- Before the first range there is no price.
pub price_at-none :
    (ranges : List Range) (t : ℕ) → All (λ r. t < r.start) ranges → price_at ranges t ≡ none
unfolding price_at
price_at-none ranges t h = rw (find_started-none ranges t h) refl
