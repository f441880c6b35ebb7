-- ===== src/Abi/Decoding.antt =====
-- abi.rs, `decode_return`: return data of every expectation.
use crossfoot.Base.{
  ℕ, zero, suc, ◌-◌, ◌*◌, ◌^◌, ◌≤◌, ◌≡◌, ◌≢◌, refl, ap, arith, Option, none, some, List, [], ◌∷◌,
  length, leb, if◌then◌else◌, le-lt-cases, le→leb, lt→leb, inl, inr, Bool, true, false,
}
use crossfoot.Decimal.{print_digits}
use crossfoot.Abi.{hex_decode}
use crossfoot.Abi.Hex.{IsBytes}
use crossfoot.Abi.Word.{number}
use crossfoot.Abi.Number.{IsWord, word_to_decimal-print}
use crossfoot.Abi.Negation.{word_to_signed_decimal-complement}
use crossfoot.Abi.Calldata.{take-IsBytes}
use crossfoot.Abi.Return.{
  take, drop, Expect, FieldKind, Field, DecodedField, hex_text, word_to_address, one_uint,
  one_address, tuple, nothing, one_word, words, other, decimal_of, address_of, decode_field,
  decode_fields, decode_word, decode_bytes, decode_return,
}

-- The digits of a number, and those of a word in two's complement.
abbrev pub digits_of : ℕ → List ℕ
digits_of n = print_digits 78 n []

abbrev pub signed_digits_of : ℕ → List ℕ
signed_digits_of n = if leb (2 ^ 255) n then b'-' ∷ digits_of (2 ^ 256 - n) else digits_of n

abbrev pub field_digits : FieldKind → ℕ → List ℕ
field_digits FieldKind.int n = signed_digits_of n
field_digits FieldKind.uint n = digits_of n
field_digits FieldKind.address n = digits_of n

abbrev pub field_address : FieldKind → List ℕ → Option (List ℕ)
field_address FieldKind.int word = none
field_address FieldKind.uint word = none
field_address FieldKind.address word = word_to_address word

-- Every field with the exact digits of its 32 bytes.
abbrev pub exact_fields : List Field → List ℕ → List DecodedField
exact_fields [] bytes = []
exact_fields (field ∷ fields) bytes =
    record {
      name = field.name;
      hex = hex_text (take 32 bytes);
      decimal = field_digits field.kind (number 256 (take 32 bytes));
      address = field_address field.kind (take 32 bytes);
    }
    ∷ exact_fields fields (drop 32 bytes)

decimal_of-exact :
    (kind : FieldKind) (word : List ℕ)
    → IsWord word
    → decimal_of kind word ≡ some (field_digits kind (number 256 word))
decimal_of-exact FieldKind.uint word h = word_to_decimal-print word h
decimal_of-exact FieldKind.address word h = word_to_decimal-print word h
decimal_of-exact FieldKind.int word h =
    let (small, large) = word_to_signed_decimal-complement word h in
    elim (le-lt-cases (2 ^ 255) (number 256 word)) [
      | inl high ↦ rw (le→leb (2 ^ 255) (number 256 word) high) (large high)
      | inr low ↦ rw (lt→leb (2 ^ 255) (number 256 word) low) (small low)
    ]

address_of-exact :
    (kind : FieldKind) (word : List ℕ) → address_of kind word ≡ field_address kind word
address_of-exact FieldKind.uint word = refl
address_of-exact FieldKind.address word = refl
address_of-exact FieldKind.int word = refl

drop-IsBytes : (n : ℕ) (bytes : List ℕ) → IsBytes bytes → IsBytes (drop n bytes)
drop-IsBytes zero bytes h = h
drop-IsBytes (suc n) [] h = tt
drop-IsBytes (suc n) (b ∷ bytes) (byte, rest) = drop-IsBytes n bytes rest

length-take : (n : ℕ) (bytes : List ℕ) → n ≤ length bytes → length (take n bytes) ≡ n
length-take zero bytes h = refl
length-take (suc n) [] h = absurd (omega arith)
length-take (suc n) (b ∷ bytes) h = ap suc (length-take n bytes (omega arith))

length-drop : (n : ℕ) (bytes : List ℕ) → length (drop n bytes) ≡ length bytes - n
length-drop zero bytes = omega arith
length-drop (suc n) [] = omega arith
length-drop (suc n) (b ∷ bytes) = omega (arith, length-drop n bytes)

decode_fields-exact :
    (fields : List Field) (bytes : List ℕ)
    → IsBytes bytes
    → length bytes ≡ length fields * 32
    → decode_fields fields bytes ≡ some (exact_fields fields bytes)
unfolding decode_fields decode_field
decode_fields-exact [] bytes h size = refl
decode_fields-exact (field ∷ fields) bytes h size =
    let word = take 32 bytes in
    let is_word : IsWord word =
      (length-take 32 bytes (omega (arith, size)), take-IsBytes 32 bytes h) in
    let rest =
      decode_fields-exact fields (drop 32 bytes) (drop-IsBytes 32 bytes h)
        (omega (arith, size, length-drop 32 bytes)) in
    rw (decimal_of-exact field.kind word is_word, address_of-exact field.kind word, rest) refl

-- What a caller that wants one number, or one address, is given for a word.
abbrev pub single : Bool → Expect
single true = one_address
single false = one_uint

abbrev pub single_address : Bool → List ℕ → Option (List ℕ)
single_address true word = word_to_address word
single_address false word = none

decode_bytes-single :
    (wants : Bool) (bytes : List ℕ)
    → IsBytes bytes
    → (length bytes ≡ 32
        → decode_bytes (single wants) bytes
          ≡ some (
              one_word
                (hex_text bytes)
                (digits_of (number 256 bytes))
                (single_address wants bytes)))
      × (length bytes ≢ 32
          → decode_bytes (single wants) bytes ≡ some (other (hex_text bytes) (length bytes)))
unfolding decode_bytes decode_word
decode_bytes-single true bytes h = (
  λ size. rw (word_to_decimal-print bytes (size, h)) (ground (arith, size)),
  λ size. ground (arith, size),
)
decode_bytes-single false bytes h = (
  λ size. rw (word_to_decimal-print bytes (size, h)) (ground (arith, size)),
  λ size. ground (arith, size),
)

decode_bytes-tuple :
    (fields : List Field) (bytes : List ℕ)
    → IsBytes bytes
    → (length bytes ≡ length fields * 32
        → decode_bytes (tuple fields) bytes
          ≡ some (words (hex_text bytes) (exact_fields fields bytes)))
      × (length bytes ≢ length fields * 32
          → decode_bytes (tuple fields) bytes ≡ some (other (hex_text bytes) (length bytes)))
unfolding decode_bytes
decode_bytes-tuple fields bytes h = (
  λ size. rw (decode_fields-exact fields bytes h size) (ground (arith, size)),
  λ size. ground (arith, size),
)

-- Return data that is hex of some bytes, for a caller that wants one number, one address or a tuple:
-- no bytes are nothing. Otherwise for a number or an address 32 bytes are a word with its exact
-- decimal text, and with an address only where one was asked for; for a tuple of n fields 32 * n bytes
-- are a word for each field, in order, with the exact decimal text of each, signed where the field is
-- signed, and an address only where the field is one. Any other number of bytes is kept as it is.
-- A text that is not hex is kept as it is, with length 0.
pub decode_return-decodes :
    (wants : Bool) (fields : List Field) (text bytes not_hex_text : List ℕ)
    → hex_decode text ≡ some bytes
    → IsBytes bytes
    → hex_decode not_hex_text ≡ none
    → (expect : Expect)
    → (bytes ≡ [] → decode_return text expect ≡ some nothing)
      × (length bytes ≡ 32
          → decode_return text (single wants)
            ≡ some (
                one_word
                  (hex_text bytes)
                  (digits_of (number 256 bytes))
                  (single_address wants bytes)))
      × (bytes ≢ []
          → length bytes ≢ 32
          → decode_return text (single wants) ≡ some (other (hex_text bytes) (length bytes)))
      × (bytes ≢ []
          → length bytes ≡ length fields * 32
          → decode_return text (tuple fields)
            ≡ some (words (hex_text bytes) (exact_fields fields bytes)))
      × (bytes ≢ []
          → length bytes ≢ length fields * 32
          → decode_return text (tuple fields) ≡ some (other (hex_text bytes) (length bytes)))
      × (decode_return not_hex_text expect ≡ some (other not_hex_text 0))
unfolding decode_return
decode_return-decodes wants fields text [] broken read h unread expect = (
  λ e. rw read refl,
  λ size. absurd (omega arith),
  λ some_byte size. absurd (some_byte refl),
  λ some_byte size. absurd (some_byte refl),
  λ some_byte size. absurd (some_byte refl),
  rw unread refl,
)
decode_return-decodes wants fields text (b ∷ bytes) broken read h unread expect =
    let (word, kept) = decode_bytes-single wants (b ∷ bytes) h in
    let (decoded, kept') = decode_bytes-tuple fields (b ∷ bytes) h in
    (
      λ e. cc,
      λ size. rw read (word size),
      λ some_byte size. rw read (kept size),
      λ some_byte size. rw read (decoded size),
      λ some_byte size. rw read (kept' size),
      rw unread refl,
    )
