-- ===== src/Abi/Hex.antt =====
-- abi.rs, `hex_encode` and `hex_decode`.
use crossfoot.Base.{
  ℕ, ◌+◌, ◌*◌, ◌/◌, ◌%◌, ◌<◌, ◌≡◌, refl, ap, arith, some, List, [], ◌∷◌, length, All,
}
use crossfoot.Abi.{hex_digit, hex_encode, to_digit, strip_0x, decode_pairs, hex_decode}

abbrev pub IsByte : ℕ → Type 0
IsByte b = b < 256

abbrev pub IsBytes : List ℕ → Type 0
IsBytes bytes = All IsByte bytes

to_digit-hex_digit : (d : ℕ) → d < 16 → to_digit (hex_digit d) ≡ some d
unfolding to_digit hex_digit
to_digit-hex_digit d h = ground arith

decode_pairs-hex_encode :
    (bytes : List ℕ) → IsBytes bytes → decode_pairs (hex_encode bytes) ≡ some bytes
unfolding decode_pairs hex_encode
decode_pairs-hex_encode [] h = refl
decode_pairs-hex_encode (b ∷ bytes) (byte, rest) =
    let parts : b / 16 * 16 + b % 16 ≡ b = omega arith in
    rw
      (
        to_digit-hex_digit (b / 16) (omega arith),
        to_digit-hex_digit (b % 16) (omega arith),
        decode_pairs-hex_encode bytes rest,
      )
      (ap (λ n. some (n ∷ bytes)) parts)

pub length-hex_encode : (bytes : List ℕ) → length (hex_encode bytes) ≡ 2 * length bytes
unfolding hex_encode
length-hex_encode [] = refl
length-hex_encode (b ∷ bytes) = omega (arith, length-hex_encode bytes)

hex_digit-lt : (d : ℕ) → d < 16 → hex_digit d < b'x'
unfolding hex_digit
hex_digit-lt d h = ground arith

-- No hex digit is an `x`, so nothing is stripped off an encoded text.
strip_0x-hex_encode : (bytes : List ℕ) → strip_0x (hex_encode bytes) ≡ hex_encode bytes
unfolding hex_encode
strip_0x-hex_encode [] = refl
strip_0x-hex_encode (b ∷ bytes) = ground (arith, hex_digit-lt (b % 16) (omega arith))

-- Bytes that are encoded, with or without the prefix, are decoded to themselves.
pub hex_decode-hex_encode :
    (bytes : List ℕ)
    → IsBytes bytes
    → (hex_decode (hex_encode bytes) ≡ some bytes)
      × (hex_decode (b'0' ∷ b'x' ∷ hex_encode bytes) ≡ some bytes)
unfolding hex_decode
hex_decode-hex_encode bytes h =
    let even : length (hex_encode bytes) % 2 ≡ 0 = omega (arith, length-hex_encode bytes) in
    let decoded = decode_pairs-hex_encode bytes h in
    (rw (strip_0x-hex_encode bytes) (ground (arith, even, decoded)), ground (arith, even, decoded))
