-- ===== src/Decimal/Percent.antt =====
-- decision.rs, `percent_from_1e8` and `percent_to_1e8`: the two are a round trip.
use crossfoot.Base.{
  is_empty, ℕ, ◌+◌, ◌*◌, ◌/◌, ◌%◌, ◌≤◌, ◌<◌, ◌≡◌, ◌∙◌, sym, ap, refl, arith, some, List, [], ◌∷◌,
  ◌++◌, All, ◌==◌, u128_mod, ==-false, Bool-cases, inl, inr, le→ltb, length, List-cases, add128,
  add128-exact, mul128-exact, false,
}
use crossfoot.Decimal.{
  parse_digits, parse_number, parse_u128, parse_or_zero, parse_fraction, print, pad_zeros,
  pad_right, trim_zeros, split_point, percent_to_1e8, percent_digits, percent_from_1e8,
}
use crossfoot.Decimal.Digits.{
  IsDigit, parse_u128-print, parse_u128-digits, parse_digits-pad_zeros, pad_zeros-IsDigit,
  length-pad_zeros, print-IsDigit, length-print,
}

-- Padding gives back what trimming took.
pad_right-trim_zeros : (s : List ℕ) → pad_right (length s) (trim_zeros s) ≡ s
unfolding pad_right trim_zeros
pad_right-trim_zeros [] = refl
pad_right-trim_zeros (c ∷ s) =
    let rest = pad_right-trim_zeros s in
    elim (List-cases (trim_zeros s)) [
      | inl nothing ↦
          let zeros = rw nothing at rest in
          elim (Bool-cases (c == b'0')) [
            | inl zero_digit ↦
                let same : c ≡ b'0' = ground (arith, zero_digit) in
                rw (nothing, zero_digit, zeros, same) refl
            | inr other ↦ rw (nothing, other, zeros) refl
          ]
      | inr (d, t, kept) ↦ let whole = rw kept at rest in rw (kept, whole) refl
    ]

length-trim_zeros : (s : List ℕ) → length (trim_zeros s) ≤ length s
unfolding trim_zeros
length-trim_zeros [] = omega arith
length-trim_zeros (c ∷ s) =
    let rest = length-trim_zeros s in
    elim (List-cases (trim_zeros s)) [
      | inl nothing ↦ rw nothing (ground arith)
      | inr (d, t, kept) ↦
          let shorter : length (d ∷ t) ≤ length s = rw kept at rest in
          rw kept (omega (arith, shorter))
    ]

split_point_none : (s : List ℕ) → All IsDigit s → split_point s ≡ (s, [])
unfolding split_point
split_point_none [] h = refl
split_point_none (c ∷ s) (digit, h) =
    rw (==-false c b'.' (λ e. omega (arith, e, digit)), split_point_none s h) refl

split_point_some : (s t : List ℕ) → All IsDigit s → split_point (s ++ (b'.' ∷ t)) ≡ (s, t)
unfolding split_point
split_point_some [] t h = refl
split_point_some (c ∷ s) t (digit, h) =
    rw (==-false c b'.' (λ e. omega (arith, e, digit)), split_point_some s t h) refl

parse_fraction_some : (s : List ℕ) → 0 < length s → parse_fraction s ≡ parse_u128 (pad_right 8 s)
unfolding parse_fraction
parse_fraction_some [] p = absurd (omega arith)
parse_fraction_some (c ∷ s) p = refl

parse_or_zero_some : (s : List ℕ) → 0 < length s → parse_or_zero s ≡ parse_u128 s
unfolding parse_or_zero
parse_or_zero_some [] p = absurd (omega arith)
parse_or_zero_some (c ∷ s) p = refl

is_empty_some : (s : List ℕ) → 0 < length s → is_empty s ≡ false
is_empty_some [] p = absurd (omega arith)
is_empty_some (c ∷ s) p = refl

parse_u128-pad_zeros : (n : ℕ) → n < 100_000_000 → parse_u128 (pad_zeros 8 n []) ≡ some n
unfolding parse_digits
parse_u128-pad_zeros n h =
    parse_u128-digits (pad_zeros 8 n []) (omega (arith, length-pad_zeros 8 n []))
      (pad_zeros-IsDigit 8 n [] tt)
    ∙ parse_digits-pad_zeros 8 n [] (omega arith) (omega arith)

zeros_read : (n : ℕ) → parse_u128 (pad_right 8 []) ≡ some n → n ≡ 0
unfolding parse_u128 parse_number parse_digits pad_right
zeros_read n e = ground arith

-- The trimmed fraction, padded again, is read as the fraction.
parse_fraction-trim_zeros :
    (frac : ℕ)
    → 0 < frac
    → frac < 100_000_000
    → parse_fraction (trim_zeros (pad_zeros 8 frac [])) ≡ some frac
parse_fraction-trim_zeros frac p h =
    let padded = pad_zeros 8 frac [] in
    let size : length padded ≡ 8 = length-pad_zeros 8 frac [] in
    let back : pad_right 8 (trim_zeros padded) ≡ padded =
      rw size at (pad_right-trim_zeros padded) in
    let read : parse_u128 padded ≡ some frac = parse_u128-pad_zeros frac h in
    elim (List-cases (trim_zeros padded)) [
      | inl nothing ↦
          let zeros : parse_u128 (pad_right 8 []) ≡ some frac =
            ap (λ s. parse_u128 (pad_right 8 s)) (sym nothing) ∙ ap parse_u128 back ∙ read in
          absurd (omega (arith, p, zeros_read frac zeros))
      | inr (d, t, kept) ↦
          let some_left : 0 < length (trim_zeros padded) = rw kept (omega arith) in
          parse_fraction_some (trim_zeros padded) some_left ∙ ap parse_u128 back ∙ read
    ]

-- A text whose two parts are read is the number that they make.
percent_to_1e8-split_point :
    (text whole frac : List ℕ) (w f : ℕ)
    → split_point text ≡ (whole, frac)
    → 0 < length whole
    → length frac ≤ 8
    → parse_or_zero whole ≡ some w
    → parse_fraction frac ≡ some f
    → w * 100_000_000 + f < u128_mod
    → percent_to_1e8 text ≡ some (w * 100_000_000 + f)
unfolding percent_to_1e8
percent_to_1e8-split_point text whole frac w f e p short read_whole read_frac fits =
    rw (e, read_whole, read_frac, le→ltb 8 (length frac) short, is_empty_some whole p)
      (ap some (
        ap (λ t. add128 t f) (mul128-exact w 100_000_000 (omega arith))
        ∙ add128-exact (w * 100_000_000) f fits))

percent_from_1e8-digits :
    (s : List ℕ) (v : ℕ)
    → 0 < length s
    → All IsDigit s
    → parse_u128 s ≡ some v
    → percent_from_1e8 s ≡ percent_digits v
unfolding percent_from_1e8
percent_from_1e8-digits [] v p h read = absurd (omega arith)
percent_from_1e8-digits (c ∷ s) v p (digit, h) read =
    rw (==-false c b'-' (λ e. omega (arith, e, digit)), read) refl

-- A percentage at the scale of 1e8 that a `u128` holds, printed with its point and without
-- trailing zeros, is read back as the same number.
pub percent_to_1e8-percent_from_1e8 :
    (v : ℕ) → v < u128_mod → percent_to_1e8 (percent_from_1e8 (print v)) ≡ some v
unfolding percent_digits parse_fraction
percent_to_1e8-percent_from_1e8 v fits =
    let whole = v / 100_000_000 in
    let frac = v % 100_000_000 in
    let text = print whole in
    let digits = print-IsDigit whole in
    let shown =
      percent_from_1e8-digits (print v) v (length-print v) (print-IsDigit v)
        (parse_u128-print v fits) in
    let read_whole =
      parse_or_zero_some text (length-print whole) ∙ parse_u128-print whole (omega arith) in
    let sum : whole * 100_000_000 + frac ≡ v = omega arith in
    ap percent_to_1e8 shown ∙ elim (Bool-cases (frac == 0)) [
      | inl round ↦
          let zero_frac : frac ≡ 0 = ground (arith, round) in
          rw round (
            percent_to_1e8-split_point text text [] whole 0 (split_point_none text digits)
              (length-print whole) (omega arith) read_whole refl (omega arith)
            ∙ ap some (omega (arith, sum, zero_frac)))
      | inr part ↦
          let positive : 0 < frac = ground (arith, part) in
          let trimmed = trim_zeros (pad_zeros 8 frac []) in
          let short : length trimmed ≤ 8 =
            omega (arith, length-trim_zeros (pad_zeros 8 frac []), length-pad_zeros 8 frac []) in
          rw part (
            percent_to_1e8-split_point (text ++ (b'.' ∷ trimmed)) text trimmed whole frac
              (split_point_some text trimmed digits) (length-print whole) short read_whole
              (parse_fraction-trim_zeros frac positive (omega arith)) (omega (arith, sum))
            ∙ ap some sum)
    ]
