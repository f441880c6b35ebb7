-- ===== src/Abi/Negation.antt =====
-- abi.rs, `word_to_signed_decimal`: two's complement.
use crossfoot.Base.{
  ℕ, ◌+◌, ◌-◌, ◌*◌, ◌/◌, ◌%◌, ◌^◌, ◌≤◌, ◌<◌, ◌≡◌, refl, ap, ◌∙◌, arith, Bool, true, false, some,
  List, [], ◌∷◌, length, Bool-cases, inl, inr, le-lt-cases, lt→leb, if◌then◌else◌, leb,
}
use crossfoot.Decimal.{print_digits}
use crossfoot.Abi.Hex.{IsByte, IsBytes}
use crossfoot.Abi.Word.{number, power, number-lt}
use crossfoot.Abi.Number.{IsWord, word_to_decimal-print}
use crossfoot.Abi.Return.{complement, add_one, negate, word_to_signed_decimal}

abbrev carry_of : Bool → ℕ
carry_of true = 1
carry_of false = 0

spread_sum : (a b p : ℕ) → (a + b + 1) * p ≡ a * p + b * p + p
spread_sum a b p = omega arith

spread : (b p : ℕ) → b < 256 → (255 - b) * p + b * p + p ≡ 256 * p
spread b p h =
    let e : 255 - b + b + 1 ≡ 256 = omega arith in
    let parts = ap (λ n. n * p) e in omega (arith, parts, spread_sum (255 - b) b p)

complement-number :
    (bytes : List ℕ)
    → IsBytes bytes
    → (number 256 (complement bytes) + number 256 bytes + 1 ≡ power 256 (length bytes))
      × IsBytes (complement bytes)
      × (length (complement bytes) ≡ length bytes)
unfolding number power
complement-number [] h = (refl, tt, refl)
complement-number (b ∷ bytes) (byte, rest) =
    let (total, bytes', same) = complement-number bytes rest in
    let places = ap (λ n. (255 - b) * power 256 n) same in
    (
      omega (arith, total, places, spread b (power 256 (length bytes)) byte),
      (omega arith, bytes'),
      omega (arith, same),
    )

-- What adding one to the bytes leaves.
abbrev IsNext : List ℕ → List ℕ × Bool → Type 0
IsNext bytes result =
    (number 256 result.0 + carry_of result.1 * power 256 (length bytes) ≡ number 256 bytes + 1)
    × IsBytes result.0
    × (length result.0 ≡ length bytes)

add_one_step :
    (b : ℕ) (bytes : List ℕ) (result : List ℕ × Bool)
    → IsByte b
    → IsBytes bytes
    → IsNext bytes result
    → IsNext
        (b ∷ bytes)
        (if result.1 then ((b + 1) % 256 ∷ result.0, leb 256 (b + 1)) else (b ∷ result.0, false))
unfolding number power
add_one_step b bytes (rest, false) byte bytes' (total, limbs, same) =
    let places = ap (λ n. b * power 256 n) same in
    (omega (arith, total, places), (byte, limbs), omega (arith, same))
add_one_step b bytes (rest, true) byte bytes' (total, limbs, same) =
    elim (le-lt-cases 256 (b + 1)) [
      | inl full ↦
          let e : b ≡ 255 = omega arith in
          rw e (omega (arith, total), (omega arith, limbs), omega (arith, same))
      | inr room ↦
          let places = ap (λ n. (b + 1) * power 256 n) same in
          let kept : (b + 1) % 256 ≡ b + 1 = omega arith in
          rw (lt→leb 256 (b + 1) room, kept)
            (omega (arith, total, places), (room, limbs), omega (arith, same))
    ]

add_one-IsNext : (bytes : List ℕ) → IsBytes bytes → IsNext bytes (add_one bytes)
unfolding add_one number power
add_one-IsNext [] h = (refl, tt, refl)
add_one-IsNext (b ∷ bytes) (byte, rest) =
    add_one_step b bytes (add_one bytes) byte rest (add_one-IsNext bytes rest)

-- The negated word of a word that is not zero is the rest to 2 ^ 256.
negate-number :
    (word : List ℕ)
    → IsWord word
    → 0 < number 256 word
    → (number 256 (negate word) ≡ 2 ^ 256 - number 256 word) × IsWord (negate word)
unfolding negate power
negate-number word (size, bytes) some_bit =
    let (sum, bytes', same) = complement-number word bytes in
    let (next, bytes'', same') = add_one-IsNext (complement word) bytes' in
    let lengths = ap (λ n. power 256 n) size in
    let lengths' = ap (λ n. power 256 n) (same ∙ size) in
    elim (Bool-cases (add_one (complement word)).1) [
      | inl carry ↦
          let next' = rw carry at next in
          absurd (omega (arith, next', sum, lengths, lengths', some_bit))
      | inr done ↦
          let next' = rw done at next in
          let total : number 256 (add_one (complement word)).0 ≡ 2 ^ 256 - number 256 word =
            omega (arith, next', sum, lengths, lengths') in
          (total, (omega (arith, same, same', size), bytes''))
    ]

sign :
    (b : ℕ) (bytes : List ℕ)
    → IsWord (b ∷ bytes)
    → (b / 128 % 2 ≡ 0 → number 256 (b ∷ bytes) < 2 ^ 255)
      × (b / 128 % 2 ≡ 1 → 2 ^ 255 ≤ number 256 (b ∷ bytes))
unfolding number power
sign b bytes (size, (byte, rest)) =
    let size' : length bytes ≡ 31 = omega (arith, size) in
    let place = ap (λ n. power 256 n) size' in
    let scaled = ap (λ n. b * power 256 n) size' in
    let below = number-lt 256 bytes rest in
    (
      λ e. let half : b < 128 = omega (arith, e, byte) in omega (arith, place, scaled, below, half),
      λ e. let half : 128 ≤ b = omega (arith, e) in omega (arith, scaled, half),
    )

-- A word below 2 ^ 255 is written as its number, and any other as a minus sign and what is missing
-- from 2 ^ 256, which is its value in two's complement.
pub word_to_signed_decimal-complement :
    (word : List ℕ)
    → IsWord word
    → (number 256 word < 2 ^ 255
        → word_to_signed_decimal word ≡ some (print_digits 78 (number 256 word) []))
      × (2 ^ 255 ≤ number 256 word
          → word_to_signed_decimal word
            ≡ some (b'-' ∷ print_digits 78 (2 ^ 256 - number 256 word) []))
unfolding word_to_signed_decimal
word_to_signed_decimal-complement [] (size, bytes) = absurd (omega arith)
word_to_signed_decimal-complement (b ∷ bytes) h =
    let (low, high) = sign b bytes h in
    elim (le-lt-cases 1 (b / 128 % 2)) [
      | inl set ↦
          let e : b / 128 % 2 ≡ 1 = omega (arith, set) in
          let large = high e in
          let (total, word) = negate-number (b ∷ bytes) h (omega (arith, large)) in
          (
            λ p. absurd (omega (arith, p, large)),
            λ p. rw (e, word_to_decimal-print (negate (b ∷ bytes)) word, total) refl,
          )
      | inr clear ↦
          let e : b / 128 % 2 ≡ 0 = omega (arith, clear) in
          let small = low e in
          (λ p. rw e (word_to_decimal-print (b ∷ bytes) h), λ p. absurd (omega (arith, p, small)))
    ]
