-- ===== src/Mtbill/Passing.antt =====
-- mtbill.rs: a check that fails on any violation passes exactly when it lists none.
use crossfoot.Base.{◌≡◌, ◌≢◌, ◌↔◌, refl, List, [], ◌∷◌}
use crossfoot.Mtbill.{CheckVerdict, consistent, source_stale, insufficient_window, verdict_of}

pub verdict_of-nil :
    {V : Type 0} (failing : CheckVerdict)
    → failing ≢ consistent
    → (violations : List V) → (verdict_of failing violations ≡ consistent) ↔ (violations ≡ [])
verdict_of-nil failing h [] = (λ e. refl, λ e. refl)
verdict_of-nil failing h (v ∷ vs) = (λ e. absurd (h e), λ e. cc)

pub verdict_of_sufficient :
    {V : Type 0} (violations : List V) → verdict_of source_stale violations ≢ insufficient_window
verdict_of_sufficient [] e = cc
verdict_of_sufficient (v ∷ vs) e = cc
