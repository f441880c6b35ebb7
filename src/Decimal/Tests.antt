-- ===== src/Decimal/Tests.antt =====
-- Percentages of the source's own documentation, and the theorems on them.
use crossfoot.Base.{◌≡◌, refl, arith, none, some, add128, mul128, codes}
use crossfoot.Decimal.{
  parse_digits, parse_number, parse_u128, parse_fraction, pad_right, parse_or_zero, percent_to_1e8,
  split_point, print, percent_from_1e8, print_digits, percent_digits, trim_zeros, pad_zeros,
}
use crossfoot.Decimal.Percent.{percent_to_1e8-percent_from_1e8}

percent_to_1e8-percent_from_1e8_example :
    percent_to_1e8 (percent_from_1e8 (print 222_466_613)) ≡ some 222_466_613
percent_to_1e8-percent_from_1e8_example = percent_to_1e8-percent_from_1e8 222_466_613 (omega arith)

printed : percent_from_1e8 (codes "36000000") ≡ codes "0.36"
unfolding percent_from_1e8 parse_u128 parse_number parse_digits percent_digits trim_zeros pad_zeros
    print print_digits
printed = refl

-- A plus sign inside the text is read as one of the fraction: 1.+5 is 1.05.
plus_inside : percent_to_1e8 (codes "1.+5") ≡ some 105_000_000
unfolding percent_to_1e8 split_point parse_or_zero parse_u128 parse_number parse_digits
    parse_fraction pad_right add128 mul128
plus_inside = refl

-- A text that is no percentage is refused.
refused : percent_to_1e8 (codes "5%") ≡ none
unfolding percent_to_1e8 split_point parse_or_zero parse_u128 parse_number parse_digits
    parse_fraction pad_right add128 mul128
refused = refl
