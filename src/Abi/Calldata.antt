-- ===== src/Abi/Calldata.antt =====
-- abi.rs, `encode_uint256` and `encode_address`: what is encoded is decoded.
use crossfoot.Base.{
  ℕ, zero, suc, ◌+◌, ◌*◌, ◌/◌, ◌%◌, ◌<◌, ◌≡◌, ◌≢◌, refl, ap, sym, ◌∙◌, arith, none, some, List, [],
  ◌∷◌, ◌++◌, length, ok, err, u128_mod,
}
use crossfoot.Abi.{hex_encode, hex_decode}
use crossfoot.Abi.Hex.{IsBytes, hex_decode-hex_encode}
use crossfoot.Abi.Word.{number, power}
use crossfoot.Abi.Number.{IsWord}
use crossfoot.Abi.Return.{
  take, not_hex, not_20_bytes, hex_text, word_to_address, be_bytes, zero_bytes, selector,
  encode_uint256, encode_address,
}

hex_encode-append : (a b : List ℕ) → hex_encode (a ++ b) ≡ hex_encode a ++ hex_encode b
unfolding hex_encode
hex_encode-append [] b = refl
hex_encode-append (x ∷ a) b = rw (hex_encode-append a b) refl

append-IsBytes : (a b : List ℕ) → IsBytes a → IsBytes b → IsBytes (a ++ b)
append-IsBytes [] b h k = k
append-IsBytes (x ∷ a) b (byte, rest) k = (byte, append-IsBytes a b rest k)

pub take-IsBytes : (n : ℕ) (bytes : List ℕ) → IsBytes bytes → IsBytes (take n bytes)
take-IsBytes zero bytes h = tt
take-IsBytes (suc n) [] h = tt
take-IsBytes (suc n) (b ∷ bytes) (byte, rest) = (byte, take-IsBytes n bytes rest)

pub zero_bytes-number :
    (n : ℕ) (out : List ℕ)
    → IsBytes out
    → (number 256 (zero_bytes n out) ≡ number 256 out)
      × IsBytes (zero_bytes n out)
      × (length (zero_bytes n out) ≡ n + length out)
unfolding number
zero_bytes-number zero out h = (refl, h, omega arith)
zero_bytes-number (suc n) out h =
    let (same, bytes, size) = zero_bytes-number n out h in
    (omega (arith, same), (omega arith, bytes), omega (arith, size))

be_bytes-number :
    (n value : ℕ) (out : List ℕ)
    → value < power 256 n
    → IsBytes out
    → (number 256 (be_bytes n value out) ≡ value * power 256 (length out) + number 256 out)
      × IsBytes (be_bytes n value out)
      × (length (be_bytes n value out) ≡ n + length out)
unfolding be_bytes number power
be_bytes-number zero value out h bytes =
    let e : value ≡ 0 = omega arith in (rw e (omega arith), bytes, omega arith)
be_bytes-number (suc n) value out h bytes =
    let (same, bytes', size) =
      be_bytes-number n (value / 256) ((value % 256) ∷ out) (omega (arith, h))
        (omega arith, bytes) in
    let whole : value ≡ value / 256 * 256 + value % 256 = omega arith in
    let p = power 256 (length out) in
    let parts : value * p ≡ value / 256 * (256 * p) + value % 256 * p =
      ap (λ n. n * p) whole ∙ spread (value / 256) (value % 256) p in
    (omega (arith, same, parts), bytes', omega (arith, size))
  where
    spread : (q r p : ℕ) → (q * 256 + r) * p ≡ q * (256 * p) + r * p
    spread q r p = omega arith

-- The selector and the word of the argument.
calldata :
    (front word : List ℕ)
    → IsBytes front
    → IsBytes word
    → hex_decode (b'0' ∷ b'x' ∷ (hex_encode front ++ hex_encode word)) ≡ some (front ++ word)
calldata front word h k =
    rw (sym (hex_encode-append front word))
      (hex_decode-hex_encode (front ++ word) (append-IsBytes front word h k)).1

-- Where the hash is made of bytes, the calldata of a call with a `u128` decodes to the selector and one word, whose number is the
-- argument.
pub encode_uint256-decodes :
    (keccak256 : List ℕ → List ℕ) (signature : List ℕ) (value : ℕ)
    → IsBytes (keccak256 signature)
    → value < u128_mod
    → (word : List ℕ) × (hex_decode (encode_uint256 keccak256 signature value)
        ≡ some (selector keccak256 signature ++ word))
      × IsWord word
      × (number 256 word ≡ value)
unfolding encode_uint256 selector number power
encode_uint256-decodes keccak256 signature value h fits =
    let bytes = be_bytes 16 value [] in
    let (exact, are_bytes, size) = be_bytes-number 16 value [] (unfold power in omega arith) tt in
    let (same, are_bytes', size') = zero_bytes-number 16 bytes are_bytes in
    let front = take 4 (keccak256 signature) in
    (
      zero_bytes 16 bytes,
      calldata front (zero_bytes 16 bytes) (take-IsBytes 4 (keccak256 signature) h) are_bytes',
      (omega (arith, size, size'), are_bytes'),
      omega (arith, same, exact),
    )

address_word : (bytes : List ℕ) → word_to_address (zero_bytes 12 bytes) ≡ some (hex_text bytes)
unfolding word_to_address
address_word bytes = refl

-- Where the hash is made of bytes, the calldata of a call with an address of 20 bytes decodes to the selector and one word, from which
-- the address is read back; a text that is not hex, or not of 20 bytes, is refused with its error.
pub encode_address-decodes :
    (keccak256 : List ℕ → List ℕ) (signature address : List ℕ)
    → IsBytes (keccak256 signature)
    → ((bytes : List ℕ)
        → hex_decode address ≡ some bytes
        → IsBytes bytes
        → length bytes ≡ 20
        → (text word : List ℕ) × (encode_address keccak256 signature address ≡ ok text)
          × (hex_decode text ≡ some (selector keccak256 signature ++ word))
          × IsWord word
          × (word_to_address word ≡ some (hex_text bytes)))
      × ((bytes : List ℕ)
          → hex_decode address ≡ some bytes
          → length bytes ≢ 20
          → encode_address keccak256 signature address ≡ err not_20_bytes)
      × (hex_decode address ≡ none → encode_address keccak256 signature address ≡ err not_hex)
unfolding encode_address selector
encode_address-decodes keccak256 signature address h =
    let front = take 4 (keccak256 signature) in
    (
      λ bytes e are_bytes size.
          let (same, are_bytes', size') = zero_bytes-number 12 bytes are_bytes in
          (
            b'0' ∷ b'x' ∷ (hex_encode front ++ hex_encode (zero_bytes 12 bytes)),
            zero_bytes 12 bytes,
            rw e (ground (arith, size)),
            calldata front (zero_bytes 12 bytes) (take-IsBytes 4 (keccak256 signature) h)
                are_bytes',
            (omega (arith, size, size'), are_bytes'),
            address_word bytes,
          ),
      λ bytes e size. rw e (ground (arith, size)),
      λ e. rw e refl,
    )
