-- ===== src/Abi/Return.antt =====
-- abi.rs: signed words, addresses, calldata and the decoding of return data. The Keccak hash of the
-- third-party crate is a parameter.
use Prim.Native.String.{String}
use crossfoot.Base.{
  ℕ, zero, suc, ◌+◌, ◌-◌, ◌*◌, ◌/◌, ◌%◌, Bool, true, false, Option, none, some, List, [], ◌∷◌, ◌++◌,
  map, length, leb, ◌==◌, if◌then◌else◌, Result, ok, err, and_then,
}
use crossfoot.Base.Options.{◌>>=◌}
use crossfoot.Abi.{hex_encode, hex_decode, any_nonzero, word_to_decimal}

-- `!byte`
abbrev pub complement : List ℕ → List ℕ
complement word = map (λ byte. 255 - byte) word

-- The loop from the last byte on, which stops where adding one does not overflow: the bytes, and
-- whether the carry is still to be added.
unfoldable pub add_one : List ℕ → List ℕ × Bool
add_one [] = ([], true)
add_one (byte ∷ bytes) =
    let (rest, carry) = add_one bytes in
    if carry then ((byte + 1) % 256 ∷ rest, leb 256 (byte + 1)) else (byte ∷ rest, false)

unfoldable pub negate : List ℕ → List ℕ
unfolding add_one
negate word = (add_one (complement word)).0

-- `word[0] & 0x80`
unfoldable pub word_to_signed_decimal : List ℕ → Option (List ℕ)
unfolding negate
word_to_signed_decimal [] = none
word_to_signed_decimal (byte ∷ bytes) =
    if byte / 128 % 2 == 0
    then word_to_decimal (byte ∷ bytes)
    else do digits ← word_to_decimal (negate (byte ∷ bytes)); some (b'-' ∷ digits)

abbrev pub take : ℕ → List ℕ → List ℕ
take zero bytes = []
take (suc n) [] = []
take (suc n) (b ∷ bytes) = b ∷ take n bytes

abbrev pub drop : ℕ → List ℕ → List ℕ
drop zero bytes = bytes
drop (suc n) [] = []
drop (suc n) (b ∷ bytes) = drop n bytes

abbrev pub hex_text : List ℕ → List ℕ
hex_text bytes = b'0' ∷ b'x' ∷ hex_encode bytes

unfoldable pub word_to_address : List ℕ → Option (List ℕ)
word_to_address word = if any_nonzero (take 12 word) then none else some (hex_text (drop 12 word))

-- The `n` bytes of a number, the highest first, before those of `out`.
unfoldable pub be_bytes : (n value : ℕ) → List ℕ → List ℕ
be_bytes zero value out = out
be_bytes (suc n) value out = be_bytes n (value / 256) ((value % 256) ∷ out)

abbrev pub zero_bytes : ℕ → List ℕ → List ℕ
zero_bytes zero out = out
zero_bytes (suc n) out = 0 ∷ zero_bytes n out

pub data AddressError : Type 0 where
  not_hex not_20_bytes : AddressError

module _ (keccak256 : List ℕ → List ℕ) where
  unfoldable pub selector : List ℕ → List ℕ
  selector signature = take 4 (keccak256 signature)

  unfoldable pub encode_no_args : List ℕ → List ℕ
  unfolding selector
  encode_no_args signature = hex_text (selector signature)

  -- `value` is a `u128`.
  unfoldable pub encode_uint256 : List ℕ → ℕ → List ℕ
  unfolding be_bytes selector
  encode_uint256 signature value =
      b'0'
      ∷ b'x'
      ∷ (hex_encode (selector signature) ++ hex_encode (zero_bytes 16 (be_bytes 16 value [])))

  abbrev pub address_calldata : List ℕ → Option (List ℕ) → Result AddressError (List ℕ)
  address_calldata signature none = err not_hex
  address_calldata signature (some bytes) =
      if length bytes == 20
      then ok (b'0' ∷ b'x' ∷ (hex_encode (selector signature) ++ hex_encode (zero_bytes 12 bytes)))
      else err not_20_bytes

  unfoldable pub encode_address : List ℕ → List ℕ → Result AddressError (List ℕ)
  unfolding selector
  encode_address signature address = address_calldata signature (hex_decode address)

pub data FieldKind : Type 0 where
  uint address int : FieldKind

pub record Field : Type 0 where
  pub name : String
  pub kind : FieldKind

pub data Expect : Type 0 where
  one_uint one_address : Expect
  tuple : List Field → Expect

pub record DecodedField : Type 0 where
  pub name : String
  pub hex : List ℕ
  pub decimal : List ℕ
  pub address : Option (List ℕ)

pub data Decoded : Type 0 where
  nothing : Decoded
  one_word : (hex decimal : List ℕ) (address : Option (List ℕ)) → Decoded
  words : (hex : List ℕ) (fields : List DecodedField) → Decoded
  other : (hex : List ℕ) (byte_len : ℕ) → Decoded

abbrev pub decimal_of : FieldKind → List ℕ → Option (List ℕ)
decimal_of FieldKind.int word = word_to_signed_decimal word
decimal_of _ word = word_to_decimal word

abbrev pub address_of : FieldKind → List ℕ → Option (List ℕ)
address_of FieldKind.address word = word_to_address word
address_of _ word = none

unfoldable pub decode_field : Field → List ℕ → Option DecodedField
unfolding word_to_signed_decimal word_to_address
decode_field field word = do
  decimal ← decimal_of field.kind word
  some (record {
    name = field.name;
    hex = hex_text word;
    decimal = decimal;
    address = address_of field.kind word;
  })

-- Field after field, each from the next 32 bytes.
unfoldable pub decode_fields : List Field → List ℕ → Option (List DecodedField)
unfolding decode_field
decode_fields [] bytes = some []
decode_fields (field ∷ rest) bytes = do
  first ← decode_field field (take 32 bytes)
  others ← decode_fields rest (drop 32 bytes)
  some (first ∷ others)

-- A return of one word, or one that is recorded as it is.
unfoldable pub decode_word : (List ℕ → Option (List ℕ)) → List ℕ → Option Decoded
decode_word address_in bytes =
    if length bytes == 32
    then and_then (word_to_decimal bytes)
        (λ decimal. some (one_word (hex_text bytes) decimal (address_in bytes)))
    else some (other (hex_text bytes) (length bytes))

unfoldable pub decode_bytes : Expect → List ℕ → Option Decoded
unfolding decode_fields decode_word word_to_address
decode_bytes (tuple fields) bytes =
    if length bytes == length fields * 32
    then and_then (decode_fields fields bytes) (λ decoded. some (words (hex_text bytes) decoded))
    else some (other (hex_text bytes) (length bytes))
decode_bytes one_address bytes = decode_word word_to_address bytes
decode_bytes one_uint bytes = decode_word (λ word. none) bytes

abbrev pub decode_some : List ℕ → Expect → Option (List ℕ) → Option Decoded
decode_some text expect none = some (other text 0)
decode_some text expect (some []) = some nothing
decode_some text expect (some (byte ∷ bytes)) = decode_bytes expect (byte ∷ bytes)

-- The outer option is the fuel of the decimal loop.
unfoldable pub decode_return : List ℕ → Expect → Option Decoded
unfolding decode_bytes
decode_return text expect = decode_some text expect (hex_decode text)
