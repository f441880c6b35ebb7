-- ===== src/Abi/Tests.antt =====
-- Texts of the source's own tests, and the theorems on them.
use crossfoot.Base.{
  ℕ, zero, suc, ◌≡◌, ◌^◌, refl, arith, some, none, List, [], ◌∷◌, codes, false, err,
}
use crossfoot.Decimal.{print_digits, parse_u128}
use crossfoot.Abi.{
  hex_digit, hex_encode, to_digit, decode_pairs, hex_decode, limbs_of, divide_limbs, decimal_loop,
  word_to_decimal,
}
use crossfoot.Abi.Hex.{IsBytes, hex_decode-hex_encode}
use crossfoot.Abi.Word.{number, power}
use crossfoot.Abi.Number.{IsWord, parse_u128-word_to_decimal}
use crossfoot.Abi.Return.{
  add_one, negate, word_to_signed_decimal, be_bytes, zero_bytes, selector, hex_text, encode_uint256,
  encode_address, Field, FieldKind, tuple, words, decode_return, not_20_bytes,
}
use crossfoot.Abi.Negation.{word_to_signed_decimal-complement}
use crossfoot.Abi.Calldata.{encode_address-decodes, zero_bytes-number}
use crossfoot.Abi.Decoding.{exact_fields, decode_return-decodes}

-- The hash of `convertToAssets(uint256)` begins with these bytes.
abbrev hash : List ℕ → List ℕ
hash signature = 7 ∷ 162 ∷ 209 ∷ 58 ∷ 0 ∷ []

encodes_one_ether :
    encode_uint256 hash (codes "convertToAssets(uint256)") 1_000_000_000_000_000_000
    ≡ codes "0x07a2d13a0000000000000000000000000000000000000000000000000de0b6b3a7640000"
unfolding encode_uint256 selector hex_encode hex_digit be_bytes
encodes_one_ether = refl

-- One, and minus one.
abbrev one_bytes : List ℕ
one_bytes = zero_bytes 31 (1 ∷ [])

abbrev ones : ℕ → List ℕ → List ℕ
ones zero out = out
ones (suc n) out = 255 ∷ ones n out

minus_one : word_to_signed_decimal (ones 32 []) ≡ some (codes "-1")
unfolding word_to_signed_decimal negate add_one word_to_decimal limbs_of divide_limbs decimal_loop
minus_one = refl

largest :
    word_to_decimal (ones 32 [])
    ≡ some (codes "115792089237316195423570985008687907853269984665640564039457584007913129639935")
unfolding word_to_decimal limbs_of divide_limbs decimal_loop
largest = refl

-- The word of the number one.
one_IsWord : IsWord one_bytes
one_IsWord = (refl, (zero_bytes-number 31 (1 ∷ []) (omega arith, tt)).1)

parse_u128-word_to_decimal_example :
    parse_u128 ((parse_u128-word_to_decimal one_bytes one_IsWord).0) ≡ some 1
unfolding number power
parse_u128-word_to_decimal_example =
    (parse_u128-word_to_decimal one_bytes one_IsWord).2 (omega arith)

-- The word of minus 2 ^ 248.
abbrev negative_word : List ℕ
negative_word = 255 ∷ zero_bytes 31 []

word_to_signed_decimal-complement_example :
    word_to_signed_decimal negative_word ≡ some (b'-' ∷ print_digits 78 (2 ^ 248) [])
unfolding number power
word_to_signed_decimal-complement_example =
    (word_to_signed_decimal-complement negative_word
        (refl, (omega arith, (zero_bytes-number 31 [] tt).1))).1
      (omega arith)

hash_IsBytes : (signature : List ℕ) → IsBytes (hash signature)
hash_IsBytes signature =
    (omega arith, (omega arith, (omega arith, (omega arith, (omega arith, tt)))))

encode_address-decodes_example :
    encode_address hash (codes "f(address)") (codes "0x12") ≡ err not_20_bytes
unfolding hex_decode decode_pairs to_digit
encode_address-decodes_example =
    (encode_address-decodes hash (codes "f(address)") (codes "0x12")
        (hash_IsBytes (codes "f(address)"))).1
      (18 ∷ []) refl (λ e. omega (arith, e))

odd_text : hex_decode (codes "0x1") ≡ none
unfolding hex_decode decode_pairs to_digit
odd_text = refl

abbrev savings : List Field
savings = record { name = "saved"; kind = FieldKind.uint } ∷ []

-- One field of a tuple, from its 64 digits.
decode_return-decodes_example :
    decode_return (hex_text one_bytes) (tuple savings)
    ≡ some (words (hex_text one_bytes) (exact_fields savings one_bytes))
unfolding number
decode_return-decodes_example =
    (decode_return-decodes false savings (hex_text one_bytes) one_bytes (codes "0x1")
        (hex_decode-hex_encode one_bytes one_IsWord.1).1 one_IsWord.1 odd_text (tuple savings)).3
      (λ e. cc) refl
