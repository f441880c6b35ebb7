-- ===== src/Frax.antt =====
-- frax.rs: the price of a share under continuous compounding, by `exp2` in 256-bit fixed point. A
-- `U256` is the list of its four `u64` limbs, the lowest first.
pub mod Limbs
pub mod Product
pub mod Shift
pub mod Rate
pub mod Exp
pub mod Price
mod Tests
use Prim.Native.Nat.{bit_or}
use crossfoot.Base.{
  ℕ, zero, suc, ◌+◌, ◌-◌, ◌*◌, ◌/◌, ◌%◌, ◌^◌, Bool, ◌||◌, ◌&&◌, not, Option, none, some, List, [],
  ◌∷◌, ◌++◌, ltb, leb, ◌==◌, if◌then◌else◌, u64_mod, u128_mod, add128, mul128,
}
use crossfoot.Base.Options.{◌>>=◌}

-- `let cur = f(out[k]); out[k] = cur as u64; carry = cur >> 64`: the limbs and the carry, or `none`
-- where the index is out of bounds.
unfoldable pub update : (k : ℕ) → (ℕ → ℕ) → List ℕ → Option (List ℕ × ℕ)
update k f [] = none
update zero f (o ∷ out) = some (f o % u64_mod ∷ out, f o / u64_mod)
update (suc k) f (o ∷ out) = do (out', carry) ← update k f out; some (o ∷ out', carry)

-- The loop over the limbs of the second factor, at `out[k]`, with the carry.
unfoldable pub mul_row :
    (a : ℕ) → (bs : List ℕ) → (k : ℕ) → (out : List ℕ) → (carry : ℕ) → Option (List ℕ × ℕ)
unfolding update add128 mul128
mul_row a [] k out carry = some (out, carry)
mul_row a (b ∷ bs) k out carry = do
  (out', carry') ← update k (λ o. add128 (add128 (mul128 a b) o) carry) out
  mul_row a bs (suc k) out' carry'

-- `while carry > 0`, at `out[k]`. The fuel is the number of limbs from `k` on, so running out of it
-- is the index out of bounds.
unfoldable pub carry_loop : (fuel k : ℕ) → (out : List ℕ) → (carry : ℕ) → Option (List ℕ)
unfolding update add128
carry_loop fuel k out zero = some out
carry_loop zero k out (suc carry) = none
carry_loop (suc fuel) k out (suc carry) = do
  (out', carry') ← update k (λ o. add128 o (suc carry)) out
  carry_loop fuel (suc k) out' carry'

-- The loop over the limbs of the first factor, from limb `k` on.
unfoldable pub mul_rows : (limbs bs : List ℕ) → (k : ℕ) → (out : List ℕ) → Option (List ℕ)
unfolding mul_row carry_loop
mul_rows [] bs k out = some out
mul_rows (a ∷ limbs) bs k out = do
  (out', carry) ← mul_row a bs k out 0
  out'' ← carry_loop (4 - k) (k + 2) out' carry
  mul_rows limbs bs (suc k) out''

-- The lower four limbs, where the upper two are zero.
abbrev pub lower_limbs : List ℕ → Option (List ℕ)
lower_limbs (o0 ∷ o1 ∷ o2 ∷ o3 ∷ o4 ∷ o5 ∷ []) =
    if not (o4 == 0) || not (o5 == 0) then none else some (o0 ∷ o1 ∷ o2 ∷ o3 ∷ [])
lower_limbs _ = none

abbrev pub zero_limbs : ℕ → List ℕ
zero_limbs zero = []
zero_limbs (suc n) = 0 ∷ zero_limbs n

unfoldable pub mul_u256_u128 : List ℕ → ℕ → Option (List ℕ)
unfolding mul_rows
mul_u256_u128 a b = do
  out ← mul_rows a (b % u64_mod ∷ b / u64_mod ∷ []) 0 (zero_limbs 6)
  lower_limbs out

-- `v >> bits`, with the lower bits of the next limb above it; the shift to the left drops what
-- leaves the word.
unfoldable pub shift_bits : (bits : ℕ) → List ℕ → List ℕ
shift_bits bits [] = []
shift_bits bits (v ∷ []) = v / 2 ^ bits ∷ []
shift_bits bits (v ∷ w ∷ rest) =
    (if ltb 0 bits then bit_or (v / 2 ^ bits) (w * 2 ^ (64 - bits) % u64_mod) else v / 2 ^ bits)
    ∷ shift_bits bits (w ∷ rest)

-- The source limb of the first slot is `limb`; the slots beyond the last source limb stay zero.
unfoldable pub shift_limbs : (limb bits : ℕ) → List ℕ → List ℕ
unfolding shift_bits
shift_limbs zero bits a = shift_bits bits a
shift_limbs (suc limb) bits [] = []
shift_limbs (suc limb) bits (v ∷ a) = shift_limbs limb bits a ++ (0 ∷ [])

unfoldable pub shr_u256 : List ℕ → ℕ → List ℕ
unfolding shift_limbs
shr_u256 a n = shift_limbs (n / 64) (n % 64) a

abbrev pub to_u128 : List ℕ → Option ℕ
to_u128 (a0 ∷ a1 ∷ a2 ∷ a3 ∷ []) =
    if not (a2 == 0) || not (a3 == 0) then none else some (bit_or a0 (a1 * 2 ^ 64 % u128_mod))
to_u128 _ = none
