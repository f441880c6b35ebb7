-- ===== src/Decimal/Digits.antt =====
-- decision.rs, `parse` and `to_string` of a `u128`: what is printed is read back.
use native.Mathlib.Nat.{pow-suc}
use crossfoot.Base.{
  ℕ, zero, suc, ◌+◌, ◌/◌, ◌%◌, ◌^◌, ◌≤◌, ◌<◌, ◌≡◌, ◌∙◌, refl, arith, none, some, List, [], ◌∷◌, All,
  u128_mod, ==-false, le-lt-cases, inl, inr, lt→ltb, le→ltb, length,
}
use crossfoot.Decimal.{parse_digits, parse_number, parse_u128, print_digits, print, pad_zeros}

abbrev pub IsDigit : ℕ → Type 0
IsDigit c = (b'0' ≤ c) × (c ≤ b'9')

-- Reading the last digit of `n` after the digits before it gives `n`.
parse_digits_last :
    (n : ℕ) (out : List ℕ)
    → n < u128_mod
    → parse_digits (n / 10) ((b'0' + n % 10) ∷ out) ≡ parse_digits n out
unfolding parse_digits
parse_digits_last n out h = ground arith

parse_digits-print_digits :
    (fuel n : ℕ) (out : List ℕ)
    → n < 10 ^ suc fuel
    → n < u128_mod
    → parse_digits 0 (print_digits (suc fuel) n out) ≡ parse_digits n out
unfolding print_digits
parse_digits-print_digits zero n out h w =
    let whole : n / 10 ≡ 0 = omega arith in
    rw (lt→ltb n 10 (omega arith)) (rw whole at (parse_digits_last n out w))
parse_digits-print_digits (suc fuel) n out h w = elim (le-lt-cases 10 n) [
  | inr last ↦
      let whole : n / 10 ≡ 0 = omega arith in
      rw (lt→ltb n 10 last) (rw whole at (parse_digits_last n out w))
  | inl more ↦ rw (le→ltb n 10 more) (
      parse_digits-print_digits fuel (n / 10) ((b'0' + n % 10) ∷ out)
        (omega (arith, h, pow-suc 10 (suc fuel))) (omega arith)
      ∙ parse_digits_last n out w)
]

pub parse_digits-pad_zeros :
    (width n : ℕ) (out : List ℕ)
    → n < 10 ^ width
    → n < u128_mod
    → parse_digits 0 (pad_zeros width n out) ≡ parse_digits n out
unfolding pad_zeros
parse_digits-pad_zeros zero n out h w = ground arith
parse_digits-pad_zeros (suc width) n out h w =
    parse_digits-pad_zeros width (n / 10) ((b'0' + n % 10) ∷ out)
      (omega (arith, h, pow-suc 10 width)) (omega arith)
    ∙ parse_digits_last n out w

print_digits-IsDigit :
    (fuel n : ℕ) (out : List ℕ) → All IsDigit out → All IsDigit (print_digits fuel n out)
unfolding print_digits
print_digits-IsDigit zero n out h = h
print_digits-IsDigit (suc fuel) n out h = elim (le-lt-cases 10 n) [
  | inr last ↦ rw (lt→ltb n 10 last) ((omega arith, omega arith), h)
  | inl more ↦
      rw (le→ltb n 10 more)
        (print_digits-IsDigit fuel (n / 10) ((b'0' + n % 10) ∷ out) ((omega arith, omega arith), h))
]

pub pad_zeros-IsDigit :
    (width n : ℕ) (out : List ℕ) → All IsDigit out → All IsDigit (pad_zeros width n out)
unfolding pad_zeros
pad_zeros-IsDigit zero n out h = h
pad_zeros-IsDigit (suc width) n out h =
    pad_zeros-IsDigit width (n / 10) ((b'0' + n % 10) ∷ out) ((omega arith, omega arith), h)

pub length-pad_zeros :
    (width n : ℕ) (out : List ℕ) → length (pad_zeros width n out) ≡ width + length out
unfolding pad_zeros
length-pad_zeros zero n out = omega arith
length-pad_zeros (suc width) n out =
    omega (arith, length-pad_zeros width (n / 10) ((b'0' + n % 10) ∷ out))

length-print_digits : (fuel n : ℕ) (out : List ℕ) → length out ≤ length (print_digits fuel n out)
unfolding print_digits
length-print_digits zero n out = omega arith
length-print_digits (suc fuel) n out =
    ground (arith, length-print_digits fuel (n / 10) ((b'0' + n % 10) ∷ out))

-- Behind a digit there is no sign to take.
pub parse_u128-digits :
    (s : List ℕ) → 0 < length s → All IsDigit s → parse_u128 s ≡ parse_digits 0 s
unfolding parse_u128 parse_number
parse_u128-digits [] p h = absurd (omega arith)
parse_u128-digits (c ∷ s) p (digit, h) = rw (==-false c b'+' (λ e. omega (arith, e, digit))) refl

pub print-IsDigit : (n : ℕ) → All IsDigit (print n)
unfolding print
print-IsDigit n = print_digits-IsDigit 39 n [] tt

pub length-print : (n : ℕ) → 0 < length (print n)
unfolding print print_digits
length-print n = ground (arith, length-print_digits 38 (n / 10) ((b'0' + n % 10) ∷ []))

-- Every `u128` is read back from its digits.
pub parse_u128-print : (n : ℕ) → n < u128_mod → parse_u128 (print n) ≡ some n
unfolding print parse_digits
parse_u128-print n w =
    parse_u128-digits (print n) (length-print n) (print-IsDigit n)
    ∙ parse_digits-print_digits 38 n [] (omega arith) w

-- Reading a last digit that takes the number out of the `u128`s fails.
parse_digits_over :
    (n : ℕ) (out : List ℕ) → u128_mod ≤ n → parse_digits (n / 10) ((b'0' + n % 10) ∷ out) ≡ none
unfolding parse_digits
parse_digits_over n out h = ground arith

parse_digits-print_digits_over :
    (fuel n : ℕ) (out : List ℕ)
    → n < 10 ^ suc fuel
    → u128_mod ≤ n
    → parse_digits 0 (print_digits (suc fuel) n out) ≡ none
unfolding print_digits
parse_digits-print_digits_over zero n out h w = absurd (omega arith)
parse_digits-print_digits_over (suc fuel) n out h w =
    let rest : n / 10 < 10 ^ suc fuel = omega (arith, h, pow-suc 10 (suc fuel)) in
    rw (le→ltb n 10 (omega arith)) (elim (le-lt-cases u128_mod (n / 10)) [
      | inl over ↦ parse_digits-print_digits_over fuel (n / 10) ((b'0' + n % 10) ∷ out) rest over
      | inr word ↦
          parse_digits-print_digits fuel (n / 10) ((b'0' + n % 10) ∷ out) rest word
          ∙ parse_digits_over n out w
    ])

some_digit : (fuel n : ℕ) → 0 < length (print_digits (suc fuel) n [])
unfolding print_digits
some_digit fuel n = ground (arith, length-print_digits fuel (n / 10) ((b'0' + n % 10) ∷ []))

-- The digits of any number below 10 to their count are read back where the number is a `u128`, and
-- refused where it is not.
pub parse_u128-print_digits :
    (fuel n : ℕ)
    → n < 10 ^ suc fuel
    → (n < u128_mod → parse_u128 (print_digits (suc fuel) n []) ≡ some n)
      × (u128_mod ≤ n → parse_u128 (print_digits (suc fuel) n []) ≡ none)
unfolding parse_digits
parse_u128-print_digits fuel n h =
    let text = print_digits (suc fuel) n [] in
    let first =
      parse_u128-digits text (some_digit fuel n) (print_digits-IsDigit (suc fuel) n [] tt) in
    (
      λ w. first ∙ parse_digits-print_digits fuel n [] h w,
      λ w. first ∙ parse_digits-print_digits_over fuel n [] h w,
    )

grown :
    (fuel n d : ℕ) (out : List ℕ)
    → (e : ℕ) × (rest : List ℕ) × (print_digits fuel n (d ∷ out) ≡ (e ∷ rest))
unfolding print_digits
grown zero n d out = (d, out, refl)
grown (suc fuel) n d out = elim (le-lt-cases 10 n) [
  | inr last ↦ (b'0' + n % 10, d ∷ out, rw (lt→ltb n 10 last) refl)
  | inl more ↦ rw (le→ltb n 10 more) (grown fuel (n / 10) (b'0' + n % 10) (d ∷ out))
]

-- There is always a first digit.
pub print_digits-nonempty :
    (fuel n : ℕ) (out : List ℕ)
    → (d : ℕ) × (rest : List ℕ) × (print_digits (suc fuel) n out ≡ (d ∷ rest))
unfolding print_digits
print_digits-nonempty fuel n out = elim (le-lt-cases 10 n) [
  | inr last ↦ (b'0' + n % 10, out, rw (lt→ltb n 10 last) refl)
  | inl more ↦ rw (le→ltb n 10 more) (grown fuel (n / 10) (b'0' + n % 10) out)
]
