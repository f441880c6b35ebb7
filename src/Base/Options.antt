-- ===== src/Base/Options.antt =====
-- The chains that `?` writes in a function that returns an `Option`.
use mathlib.Core.Option.{Option}
use crossfoot.Base.Results.{and_then}

infixl 5 ◌>>=◌
abbrev pub ◌>>=◌ {ℓ κ} : {A : Type ℓ} {B : Type κ} → Option A → (A → Option B) → Option B
m >>= f = and_then m f
