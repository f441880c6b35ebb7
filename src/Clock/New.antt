-- ===== src/Clock/New.antt =====
-- clock.rs, `TickClock::new`: the check it makes is the validity that the other operations rely on.
use mathlib.Core.Path.{subst}
use crossfoot.Base.{
  ◌≡◌, refl, sym, ap, Option, none, some, List, [], ◌∷◌, inl, inr, All, ok, le-lt-cases, le→leb,
  lt→leb,
}
use crossfoot.Clock.Defs.{RateSegment, TickClock, Error, new, find_descent, reject}
use crossfoot.Clock.Span.{IsWords, IsSeries}
use crossfoot.Clock.Integral.{IsClock, IsValid}

find_descent-IsSeries :
    (s : RateSegment) (rest : List RateSegment)
    → All IsWords (s ∷ rest)
    → find_descent (s ∷ rest) ≡ none
    → IsSeries (s ∷ rest)
unfolding find_descent
find_descent-IsSeries s [] w h = w.0
find_descent-IsSeries s (n ∷ rest) w h = elim (le-lt-cases n.start s.start) [
  | inl descends ↦ cc (rw (le→leb n.start s.start descends) at h)
  | inr ascends ↦
      (w.0, ascends, find_descent-IsSeries n rest w.1 (rw (lt→leb n.start s.start ascends) at h))
]

IsSeries-find_descent :
    (s : RateSegment) (rest : List RateSegment)
    → IsSeries (s ∷ rest)
    → find_descent (s ∷ rest) ≡ none
unfolding find_descent
IsSeries-find_descent s [] h = refl
IsSeries-find_descent s (n ∷ rest) h =
    rw (lt→leb n.start s.start h.1) (IsSeries-find_descent n rest h.2)

-- `new` on `u64` fields returns a valid clock over the given segments, unchanged, or an error, and
-- it returns the clock for every series that is valid.
pub new-IsValid :
    (l : List RateSegment)
    → All IsWords l
    → ((clock : TickClock) → new l ≡ ok clock → IsValid clock × (clock.segments ≡ l))
      × (IsClock l → new l ≡ ok (record { segments = l }))
unfolding new
new-IsValid [] w = (λ clock h. cc, λ h. absurd h)
new-IsValid (s ∷ rest) w = (accepted, λ h. rw (IsSeries-find_descent s rest h))
  where
    built : TickClock
    built = record { segments = s ∷ rest }

    of_built :
        (clock : TickClock)
        → built ≡ clock
        → IsSeries (s ∷ rest)
        → IsValid clock × (clock.segments ≡ s ∷ rest)
    of_built clock e h = (subst (λ c. IsValid c) e h, ap (λ (c : TickClock). c.segments) (sym e))

    split :
        (d : Option Error)
        → find_descent (s ∷ rest) ≡ d
        → (clock : TickClock) → reject d built ≡ ok clock
        → IsValid clock × (clock.segments ≡ s ∷ rest)
    split none e clock h = of_built clock (cc) (find_descent-IsSeries s rest w e)
    split (some x) e clock h = cc

    accepted :
        (clock : TickClock)
        → new (s ∷ rest) ≡ ok clock
        → IsValid clock × (clock.segments ≡ s ∷ rest)
    accepted = split (find_descent (s ∷ rest)) refl
