-- ===== src/Abi/Number.antt =====
-- abi.rs, `word_to_decimal`: the text is the number of the word, and reading it gives that back.
use crossfoot.Base.{
  ℕ, suc, ◌^◌, ◌≤◌, ◌<◌, ◌≡◌, refl, ap, arith, none, some, List, [], length, le-lt-cases, inl, inr,
  u128_mod, and_then,
}
use mathlib.Core.Path.{subst}
use crossfoot.Decimal.{print_digits, parse_u128}
use crossfoot.Decimal.Digits.{parse_u128-print_digits, print_digits-nonempty}
use crossfoot.Abi.{limbs_of, decimal_loop, or_zero_digit, word_to_decimal}
use crossfoot.Abi.Hex.{IsBytes}
use crossfoot.Abi.Word.{number, power, number-lt, limbs_of-number}
use crossfoot.Abi.Limbs.{decimal_loop-print}

-- 32 bytes.
abbrev pub IsWord : List ℕ → Type 0
IsWord word = (length word ≡ 32) × IsBytes word

pub word-lt : (word : List ℕ) → IsWord word → number 256 word < 2 ^ 256
unfolding power
word-lt word (size, bytes) = omega (arith, number-lt 256 word bytes, ap (λ n. power 256 n) size)

pub or_zero_digit-print :
    (fuel n : ℕ) → or_zero_digit (print_digits (suc fuel) n []) ≡ print_digits (suc fuel) n []
or_zero_digit-print fuel n = let (d, rest, e) = print_digits-nonempty fuel n [] in rw e refl

-- The text is the decimal digits of the word's number; 78 of them are enough.
pub word_to_decimal-print :
    (word : List ℕ)
    → IsWord word
    → word_to_decimal word ≡ some (print_digits 78 (number 256 word) [])
unfolding word_to_decimal
word_to_decimal-print word (size, bytes) =
    let (same, _, below, _) = limbs_of-number 8 word size bytes in
    let small = word-lt word (size, bytes) in
    let (stop, go) = decimal_loop-print 78 (limbs_of word) [] below (omega (arith, same, small)) in
    subst
      (λ n.
        and_then (decimal_loop 78 (limbs_of word) []) (λ digits. some (or_zero_digit digits))
        ≡ some (print_digits 78 n []))
      same
      (elim (le-lt-cases 1 (number (2 ^ 32) (limbs_of word))) [
        | inl some_limb ↦
            rw (go some_limb) (ap some (or_zero_digit-print 77 (number (2 ^ 32) (limbs_of word))))
        | inr none_left ↦
            let e : number (2 ^ 32) (limbs_of word) ≡ 0 = omega (arith, none_left) in
            rw (stop e, e) (unfold print_digits in refl)
      ])

-- The decimal text of a word is read back as its number where that is a `u128`, and is refused where
-- it is larger; the conversion always ends within its 78 digits.
pub parse_u128-word_to_decimal :
    (word : List ℕ)
    → IsWord word
    → (text : List ℕ) × (word_to_decimal word ≡ some text)
      × (number 256 word < u128_mod → parse_u128 text ≡ some (number 256 word))
      × (u128_mod ≤ number 256 word → parse_u128 text ≡ none)
parse_u128-word_to_decimal word h =
    let (reads, refuses) =
      parse_u128-print_digits 77 (number 256 word) (omega (arith, word-lt word h)) in
    (print_digits 78 (number 256 word) [], word_to_decimal-print word h, reads, refuses)
