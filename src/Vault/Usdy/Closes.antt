-- ===== src/Vault/Usdy/Closes.antt =====
-- usdy.rs, `close_chain_breaks`: what an empty list of breaks says of the ranges.
use crossfoot.Base.{
  ℕ, ◌≡◌, ◌↔◌, refl, arith, Option, none, some, List, [], ◌∷◌, sub64, Bool-cases, inl, inr, false,
}
use crossfoot.Vault.Usdy.{Range, derive_price, differs, close_chain_breaks}

-- Every range's stored close is the derived close of the range before it.
abbrev pub IsChained : List Range → Type 0
IsChained [] = Unit
IsChained (a ∷ []) = Unit
IsChained (a ∷ b ∷ rest) =
    (derive_price a (sub64 a.end 1) ≡ some b.prev_close) × IsChained (b ∷ rest)

differs_lem : (left : Option ℕ) (right : ℕ) → (differs left right ≡ false) ↔ (left ≡ some right)
differs_lem none right = (λ h. ground arith, λ h. ground arith)
differs_lem (some left) right = (λ h. ground arith, λ h. ground arith)

-- No break is reported exactly when the whole history is one chain of derived closes.
pub close_chain_breaks-IsChained :
    (ranges : List Range) → (close_chain_breaks ranges ≡ []) ↔ IsChained ranges
unfolding close_chain_breaks
close_chain_breaks-IsChained [] = (λ h. tt, λ h. refl)
close_chain_breaks-IsChained (a ∷ []) = (λ h. tt, λ h. refl)
close_chain_breaks-IsChained (a ∷ b ∷ rest) =
    let (forth, back) = close_chain_breaks-IsChained (b ∷ rest) in
    let (same, equal) = differs_lem (derive_price a (sub64 a.end 1)) b.prev_close in
    elim (Bool-cases (differs (derive_price a (sub64 a.end 1)) b.prev_close)) [
      | inl broken ↦ (λ h. ground (arith, h, broken), λ (e, _). ground (arith, broken, equal e))
      | inr whole ↦ rw whole (λ h. (same whole, forth h), λ (_, chained). back chained)
    ]
