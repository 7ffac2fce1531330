-- ===== src/Examples/BitObjects.antt =====
-- The class `Bits` of src/types/bits.cpp on objects of four and eight bits.
use wudoovm.Common.{
  ℕ, ◌≡◌, ◌⊎◌, refl, true, false, not, ◌&&◌, [], ◌∷◌, get_or, replicate, ltb, if◌then◌else◌, arith,
}
use wudoovm.Common.Int.{neg_part, ◌+ℤ◌}
use wudoovm.Common.Outcome.{ok, throw}
use wudoovm.Bits.Error.{checked_addition_overflow}
use wudoovm.Bits.Vector.{BitVector, binary_is_negative, differ}
use wudoovm.Bits.Signed.{signed, InRange, OutOfRange}
use wudoovm.Bits.Class.{
  Bits, of_vector, size, wrapadd, wrapmul, checked_signed_add, shr, shl, ashr, rol, ror,
  perform_bitwise_logic, of_bytes,
}
use wudoovm.Bits.Class.Arithmetic.{number, wrapadd-wrapmul-number, checked_add-cases}
use wudoovm.Bits.Class.Shifting.{shr-number, shl-number, shift-zero, ashr-cases}
use wudoovm.Bits.Class.Rotate.{ror-rol}
use wudoovm.Bits.Class.Contents.{logic-bit, of_bytes-number}

-- 0b1011 and 0b0110.
abbrev eleven : BitVector
eleven = true ∷ true ∷ false ∷ true ∷ []

abbrev six : BitVector
six = false ∷ true ∷ true ∷ false ∷ []

abbrev a : Bits
a = of_vector eleven

abbrev b : Bits
b = of_vector six

wrapadd-wrapmul_example :
    (size (wrapadd a b) ≡ 4)
    × (number (wrapadd a b) ≡ 1)
    × (size (wrapmul a b) ≡ 4)
    × (number (wrapmul a b) ≡ 2)
wrapadd-wrapmul_example = wrapadd-wrapmul-number a b

checked_add-cases_example :
    let z = signed six +ℤ signed eleven in
    let negative = λ (x : Bits). binary_is_negative x.underlying_array in
    ((sum : Bits) × (checked_signed_add b a ≡ ok sum)
      × (size sum ≡ 4)
      × (signed sum.underlying_array ≡ z)
      × (ltb 0 (neg_part z) ≡ negative a))
    ⊎ ((checked_signed_add b a ≡ throw checked_addition_overflow)
        × (OutOfRange 3 z
            ⊎ (InRange 3 z × (negative b ≡ not (negative a)) × (ltb 0 (neg_part z) ≡ negative b))))
checked_add-cases_example = checked_add-cases 3 b a refl refl

shr-number_example :
    let (after, lost) = shr a 1 in
    (size after ≡ 4) × (number after ≡ 5) × (size lost ≡ 1) × (number lost ≡ 1)
shr-number_example = shr-number a 1 (omega arith) (omega arith)

shl-number_example :
    let (after, lost) = shl a 1 in
    (size after ≡ 4) × (number after ≡ 6) × (size lost ≡ 1) × (number lost ≡ 1)
shl-number_example = shl-number a 1 (omega arith) (omega arith) (omega arith)

shift-zero_example :
    (shl a 0 ≡ (of_vector (replicate 4 false), of_vector []))
    × (shr a 0 ≡ (of_vector (replicate 4 false), of_vector []))
shift-zero_example = shift-zero a (omega arith)

ashr-cases_example :
    ashr a 1 ≡ ok (of_vector (true ∷ false ∷ true ∷ true ∷ []), of_vector (true ∷ []))
ashr-cases_example = ashr-cases 3 a 1 refl (omega arith)

ror-rol_example : ((rol a 1).1 ≡ ok tt) × (ror (rol a 1).0 1 ≡ (a, ok tt))
ror-rol_example = ror-rol 1 eleven (omega arith) (omega arith) (omega arith)

logic-bit_example :
    (size (perform_bitwise_logic differ a b) ≡ 4)
    × ((j : ℕ)
        → get_or (perform_bitwise_logic differ a b).underlying_array j false ≡ (
            if ltb j 4 && ltb j 4
            then differ (get_or eleven j false) (get_or six j false)
            else false))
logic-bit_example = logic-bit differ a b

of_bytes-number_example :
    (size (of_bytes (44 ∷ 1 ∷ [])) ≡ 16) × (number (of_bytes (44 ∷ 1 ∷ [])) ≡ 300)
of_bytes-number_example = of_bytes-number (44 ∷ 1 ∷ []) (omega arith, (omega arith, tt))
