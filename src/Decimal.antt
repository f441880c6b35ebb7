-- ===== src/Decimal.antt =====
-- Decimal texts: `to_string` and `parse` of a `u128`, and the percentages of
-- cli/src/model/decision.rs. A text is the list of its code points.
pub mod Digits
pub mod Percent
mod Tests
use crossfoot.Base.{
  is_empty, ℕ, zero, suc, ◌+◌, ◌-◌, ◌*◌, ◌/◌, ◌%◌, Bool, true, false, ◌&&◌, ◌||◌, not, Option, none,
  some, List, [], ◌∷◌, ◌++◌, ltb, leb, ◌==◌, if◌then◌else◌, and_then, length, u128_mod, add128,
  mul128,
}
use crossfoot.Base.Options.{◌>>=◌}

abbrev pub is_digit : ℕ → Bool
is_digit c = leb b'0' c && leb c b'9'

-- `parse::<u128>` behind its sign: digits to the end, and no overflow on the way.
unfoldable pub parse_digits : ℕ → List ℕ → Option ℕ
parse_digits n [] = some n
parse_digits n (c ∷ s) =
    let next = n * 10 + (c - b'0') in
    let rest = parse_digits next s in if is_digit c && ltb next u128_mod then rest else none

unfoldable pub parse_number : List ℕ → Option ℕ
unfolding parse_digits
parse_number [] = none
parse_number (c ∷ s) = parse_digits 0 (c ∷ s)

-- `parse::<u128>`, which takes one leading plus sign.
unfoldable pub parse_u128 : List ℕ → Option ℕ
unfolding parse_number
parse_u128 [] = none
parse_u128 (c ∷ s) = if c == b'+' then parse_number s else parse_number (c ∷ s)

-- `to_string`, on as many digits as the fuel allows; 39 are enough for a `u128`.
unfoldable pub print_digits : (fuel n : ℕ) → List ℕ → List ℕ
print_digits zero n out = out
print_digits (suc fuel) n out =
    let out' = (b'0' + n % 10) ∷ out in
    let more = print_digits fuel (n / 10) out' in if ltb n 10 then out' else more

unfoldable pub print : ℕ → List ℕ
unfolding print_digits
print n = print_digits 39 n []

-- `{n:0width$}` of a number below 10 ^ width.
unfoldable pub pad_zeros : (width n : ℕ) → List ℕ → List ℕ
pad_zeros zero n out = out
pad_zeros (suc width) n out = pad_zeros width (n / 10) ((b'0' + n % 10) ∷ out)

-- `{text:0<width$}`
unfoldable pub pad_right : (width : ℕ) → List ℕ → List ℕ
pad_right zero s = s
pad_right (suc width) [] = b'0' ∷ pad_right width []
pad_right (suc width) (c ∷ s) = c ∷ pad_right width s

-- The loop that pops trailing zeros.
unfoldable pub trim_zeros : List ℕ → List ℕ
trim_zeros [] = []
trim_zeros (c ∷ s) = elim (trim_zeros s) [
  | [] ↦ if c == b'0' then [] else c ∷ []
  | d ∷ t ↦ c ∷ d ∷ t
]

-- `split_once('.')`, with the whole text and nothing where there is no point.
unfoldable pub split_point : List ℕ → List ℕ × List ℕ
split_point [] = ([], [])
split_point (c ∷ s) =
    let rest = split_point s in if c == b'.' then ([], s) else (c ∷ rest.0, rest.1)

-- `if text.is_empty() { 0 } else { text.parse().ok()? }`
unfoldable pub parse_or_zero : List ℕ → Option ℕ
unfolding parse_u128
parse_or_zero [] = some 0
parse_or_zero (c ∷ s) = parse_u128 (c ∷ s)

-- The fraction, padded to eight places where it is not empty.
unfoldable pub parse_fraction : List ℕ → Option ℕ
unfolding parse_u128 pad_right
parse_fraction [] = some 0
parse_fraction (c ∷ s) = parse_u128 (pad_right 8 (c ∷ s))

-- The product and the sum are unchecked `u128` operations.
unfoldable pub percent_to_1e8 : List ℕ → Option ℕ
unfolding add128 mul128
percent_to_1e8 text =
    let (whole_text, frac_text) = split_point text in
    let parsed : Option ℕ = do
      whole ← parse_or_zero whole_text
      frac ← parse_fraction frac_text
      some (add128 (mul128 whole 100_000_000) frac)
    in if ltb 8 (length frac_text) || (is_empty whole_text && is_empty frac_text)
      then none
      else parsed

-- The part of `percent_from_1e8` behind the sign: the whole part, and a point and the fraction
-- where that is not zero.
unfoldable pub percent_digits : ℕ → List ℕ
percent_digits v =
    let frac = v % 100_000_000 in
    if frac == 0
    then print (v / 100_000_000)
    else (print (v / 100_000_000) ++ (b'.' ∷ trim_zeros (pad_zeros 8 frac [])))

-- `strip_prefix('-')`
abbrev pub strip_minus : List ℕ → Bool × List ℕ
strip_minus [] = (false, [])
strip_minus (c ∷ s) = if c == b'-' then (true, s) else (false, c ∷ s)

abbrev pub signed_percent : List ℕ → Bool → Option ℕ → List ℕ
signed_percent value negative none = value
signed_percent value negative (some v) =
    if negative && not (v == 0) then b'-' ∷ percent_digits v else percent_digits v

unfoldable pub percent_from_1e8 : List ℕ → List ℕ
percent_from_1e8 value =
    let (negative, digits) = strip_minus value in signed_percent value negative (parse_u128 digits)
