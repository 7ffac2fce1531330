-- ===== src/Bits/Wrapping/Increment.antt =====
-- `binary_increment`, `binary_decrement` and `take_twos_complement` of src/types/bits.cpp as
-- arithmetic modulo 2 ^ width.
use native.Mathlib.Nat.{pow-suc}
use wudoovm.Common.{
  suc, ◌+◌, ◌-◌, ◌*◌, ◌%◌, ◌^◌, ◌<◌, ◌≡◌, refl, ap, ap₂, ◌∙◌, ◌↔◌, Bool, true, false, ◌⊎◌, inl, inr,
  [], ◌∷◌, arith, length,
}
use wudoovm.Bits.Vector.{BitVector, binary_inversion}
use wudoovm.Common.Words.{mod_unique}
use wudoovm.Bits.Value.{bit, bit-le, value, value-lt, value-inversion, length-inversion}
use wudoovm.Bits.Wrapping.{binary_increment, binary_decrement, decrement_loop, take_twos_complement}

pub length-increment : (v : BitVector) → length (binary_increment v).1 ≡ length v
unfolding binary_increment
length-increment [] = refl
length-increment (false ∷ v) = refl
length-increment (true ∷ v) = ap suc (length-increment v)

-- The carry stands for the bit that does not fit.
pub increment_carry :
    (v : BitVector)
    → value (binary_increment v).1 + bit (binary_increment v).0 * 2 ^ length v ≡ value v + 1
unfolding binary_increment
increment_carry [] = refl
increment_carry (false ∷ v) = omega arith
increment_carry (true ∷ v) =
    grind (arith, increment_carry v, pow-suc 2 (length v), bit-le (binary_increment v).0)

increment-lt : (v : BitVector) → value (binary_increment v).1 < 2 ^ length v
increment-lt v = rw (← length-increment v) (value-lt (binary_increment v).1)

-- Incrementing adds one modulo 2 ^ width, keeps the width, and carries exactly when the vector
-- holds the greatest value.
pub value-increment :
    (v : BitVector)
    → (value (binary_increment v).1 ≡ (value v + 1) % 2 ^ length v)
      × (length (binary_increment v).1 ≡ length v)
      × (((binary_increment v).0 ≡ true) ↔ (value v + 1 ≡ 2 ^ length v))
value-increment v = (
  ground (
    arith,
    mod_unique (2 ^ length v) (value (binary_increment v).1) (bit (binary_increment v).0)
        (value v + 1),
    increment_carry v,
    increment-lt v,
  ),
  length-increment v,
  ground (arith, increment_carry v, increment-lt v, value-lt v),
)

length-decrement_loop : (b : Bool) (v : BitVector) → length (decrement_loop b v).1 ≡ length v
unfolding decrement_loop
length-decrement_loop b [] = refl
length-decrement_loop b (true ∷ v) = refl
length-decrement_loop b (false ∷ v) = ap suc (length-decrement_loop true v)

decrement_loop_borrow :
    (b : Bool) (v : BitVector)
    → ((0 < value v)
        × (value (decrement_loop b v).1 + 1 ≡ value v)
        × ((decrement_loop b v).0 ≡ false))
      ⊎ ((value v ≡ 0) × (value (decrement_loop b v).1 + 1 ≡ 2 ^ length v))
unfolding decrement_loop
decrement_loop_borrow b [] = inr (refl, refl)
decrement_loop_borrow b (true ∷ v) = inl (omega arith, omega arith, refl)
decrement_loop_borrow b (false ∷ v) =
    ground (arith, decrement_loop_borrow true v, pow-suc 2 (length v))

-- What the decremented vector is short of, without the remainder.
pub decrement_sum :
    (v : BitVector)
    → ((0 < value v) × (value (binary_decrement v).1 + 1 ≡ value v))
      ⊎ ((value v ≡ 0) × (value (binary_decrement v).1 + 1 ≡ 2 ^ length v))
unfolding binary_decrement
decrement_sum v = ground (arith, decrement_loop_borrow false v)

-- Decrementing subtracts one modulo 2 ^ width and keeps the width.
pub value-decrement :
    (v : BitVector)
    → (value (binary_decrement v).1 ≡ (value v + 2 ^ length v - 1) % 2 ^ length v)
      × (length (binary_decrement v).1 ≡ length v)
unfolding binary_decrement
value-decrement v = (
  elim (decrement_loop_borrow false v) [
    | inl h ↦ ground (
      arith,
      mod_unique (2 ^ length v) (value (decrement_loop false v).1) 1 (value v + 2 ^ length v - 1),
      value-lt v,
    )
    | inr h ↦ ground (
      arith,
      mod_unique (2 ^ length v) (value (decrement_loop false v).1) 0 (value v + 2 ^ length v - 1),
    )
  ],
  length-decrement_loop false v,
)

pub length-complement : (v : BitVector) → length (take_twos_complement v) ≡ length v
unfolding take_twos_complement
length-complement v = length-increment (binary_inversion v) ∙ length-inversion v

-- The two's complement is the negative modulo 2 ^ width.
pub value-complement :
    (v : BitVector) → value (take_twos_complement v) ≡ (2 ^ length v - value v) % 2 ^ length v
unfolding take_twos_complement
value-complement v =
    let width = length-inversion v in
    (value-increment (binary_inversion v)).0
    ∙ ap₂ (λ x y. x % 2 ^ y) (omega (arith, value-inversion v, value-lt v)) width
