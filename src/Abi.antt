-- ===== src/Abi.antt =====
-- abi.rs: hex texts, and the words of calldata and return data. A text is the list of its bytes; a
-- word is the list of its 32 bytes, the highest first.
pub mod Hex
pub mod Word
pub mod Limbs
pub mod Number
pub mod Negation
pub mod Return
pub mod Calldata
pub mod Decoding
mod Tests
use Prim.Native.Nat.{bit_or}
use crossfoot.Base.{
  ℕ, zero, suc, ◌+◌, ◌-◌, ◌*◌, ◌/◌, ◌%◌, ◌^◌, Bool, true, false, ◌&&◌, not, Option, none, some,
  List, [], ◌∷◌, ◌++◌, length, is_empty, ltb, leb, ◌==◌, if◌then◌else◌, u64_mod,
}
use crossfoot.Base.Options.{◌>>=◌}

-- `char::from_digit(d, 16)` of a digit.
unfoldable pub hex_digit : ℕ → ℕ
hex_digit d = if ltb d 10 then b'0' + d else b'a' + (d - 10)

unfoldable pub hex_encode : List ℕ → List ℕ
hex_encode [] = []
hex_encode (byte ∷ bytes) = hex_digit (byte / 16) ∷ hex_digit (byte % 16) ∷ hex_encode bytes

-- `char::to_digit(16)`
unfoldable pub to_digit : ℕ → Option ℕ
to_digit c =
    if leb b'0' c && leb c b'9'
    then some (c - b'0')
    else (if leb b'a' c && leb c b'f'
        then some (c - b'a' + 10)
        else (if leb b'A' c && leb c b'F' then some (c - b'A' + 10) else none))

-- `strip_prefix("0x").unwrap_or(input)`
abbrev pub strip_0x : List ℕ → List ℕ
strip_0x (a ∷ b ∷ rest) = if a == b'0' && b == b'x' then rest else a ∷ b ∷ rest
strip_0x text = text

-- The loop over the chunks of two bytes.
unfoldable pub decode_pairs : List ℕ → Option (List ℕ)
decode_pairs [] = some []
decode_pairs (_ ∷ []) = none
decode_pairs (a ∷ b ∷ rest) = do
  hi ← to_digit a
  lo ← to_digit b
  bytes ← decode_pairs rest
  some ((hi * 16 + lo) ∷ bytes)

unfoldable pub hex_decode : List ℕ → Option (List ℕ)
unfolding decode_pairs
hex_decode input =
    let body = strip_0x input in if not (length body % 2 == 0) then none else decode_pairs body

-- `u32::from_be_bytes` of each four bytes.
unfoldable pub limbs_of : List ℕ → List ℕ
limbs_of (a ∷ b ∷ c ∷ d ∷ rest) = (((a * 256 + b) * 256 + c) * 256 + d) ∷ limbs_of rest
limbs_of _ = []

abbrev pub any_nonzero : List ℕ → Bool
any_nonzero [] = false
any_nonzero (limb ∷ limbs) = if limb == 0 then any_nonzero limbs else true

-- The inner loop: each limb divided by ten, and the remainder.
unfoldable pub divide_limbs : (remainder : ℕ) → List ℕ → List ℕ × ℕ
divide_limbs remainder [] = ([], remainder)
divide_limbs remainder (limb ∷ limbs) =
    let current = bit_or (remainder * 2 ^ 32 % u64_mod) limb in
    let (quotients, last) = divide_limbs (current % 10) limbs in
    ((current / 10 % 2 ^ 32) ∷ quotients, last)

-- The outer loop; the digits are pushed in front, which is the reversal. The fuel is the number of
-- digits that are still possible.
unfoldable pub decimal_loop : (fuel : ℕ) → (limbs digits : List ℕ) → Option (List ℕ)
unfolding divide_limbs
decimal_loop zero limbs digits = if any_nonzero limbs then none else some digits
decimal_loop (suc fuel) limbs digits =
    let (quotients, remainder) = divide_limbs 0 limbs in
    let more = decimal_loop fuel quotients ((b'0' + remainder) ∷ digits) in
    if any_nonzero limbs then more else some digits

abbrev pub or_zero_digit : List ℕ → List ℕ
or_zero_digit [] = b'0' ∷ []
or_zero_digit (d ∷ digits) = d ∷ digits

-- 78 digits hold every number below 2 ^ 256.
unfoldable pub word_to_decimal : List ℕ → Option (List ℕ)
unfolding limbs_of decimal_loop
word_to_decimal word = do digits ← decimal_loop 78 (limbs_of word) []; some (or_zero_digit digits)
