-- ===== src/Base/Text.antt =====
-- Texts: the native `String` where the program compares whole texts, and the list of the code points
-- where it walks characters.
use Prim.Native.Nat.{ℕ, ◌+◌, Ordering}
use Prim.Native.Char.{code}
use Prim.Native.String.{String, compare}
use mathlib.Core.Path.{◌≡◌}
use mathlib.Core.Logic.{◌↔◌}
use mathlib.Core.Bool.{Bool, true, false, ◌&&◌}
use mathlib.Core.List.{List, [], ◌∷◌, map}
use mathlib.Core.Option.{Option, none, some}
use text.Mathlib.TextEquality.{eq_iff}
use crossfoot.Base.Tests.{leb, ◌==◌, if◌then◌else◌}

abbrev pub same_text : String → String → Bool
same_text s t = elim (compare s t) [ Ordering.eq ↦ true | _ ↦ false ]

pub same_text_iff : (s t : String) → (same_text s t ≡ true) ↔ (s ≡ t)
same_text_iff s t = eq_iff s t

-- `option.as_deref() == Some(t)`
abbrev pub some_text : Option String → String → Bool
some_text none t = false
some_text (some s) t = same_text s t

abbrev pub codes : String → List ℕ
codes String.[] = []
codes (String.◌∷◌ c s) = code c ∷ codes s

-- `to_ascii_lowercase` of one character.
unfoldable pub lower_code : ℕ → ℕ
lower_code c = if leb b'A' c && leb c b'Z' then c + 32 else c

abbrev pub same_codes : List ℕ → List ℕ → Bool
same_codes [] [] = true
same_codes (a ∷ s) (b ∷ t) = (a == b) && same_codes s t
same_codes _ _ = false

unfoldable pub lower_text : String → List ℕ
unfolding lower_code
lower_text s = map lower_code (codes s)

-- `eq_ignore_ascii_case`
unfoldable pub same_ignoring_case : String → String → Bool
unfolding lower_text
same_ignoring_case s t = same_codes (lower_text s) (lower_text t)
