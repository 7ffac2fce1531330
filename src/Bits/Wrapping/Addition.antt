-- ===== src/Bits/Wrapping/Addition.antt =====
-- `binary_addition` and `binary_subtraction` of src/types/bits.cpp as arithmetic.
use native.Mathlib.Nat.{pow-suc, add-mod-mod}
use wudoovm.Common.{
  leb, if◌then◌else◌, length-append, ℕ, zero, suc, ◌+◌, ◌-◌, ◌*◌, ◌%◌, ◌^◌, ◌≤◌, ◌<◌, max, ◌≡◌,
  refl, sym, ap, ◌∙◌, Bool, true, false, [], ◌∷◌, arith, length,
}
use wudoovm.Bits.Vector.{BitVector}
use wudoovm.Bits.Value.{bit, value, value-lt, value-append, value-clip, length-clip, expand_self}
use wudoovm.Bits.Wrapping.{
  first, behind, add_bits, addition_loop, binary_addition, binary_subtraction, take_twos_complement,
}
use wudoovm.Bits.Wrapping.Increment.{value-complement}

-- A full adder.
add_bits_sum :
    (l r c : Bool) → bit (add_bits l r c).0 + 2 * bit (add_bits l r c).1 ≡ bit l + bit r + bit c
unfolding add_bits
add_bits_sum l r c = ground arith

value-behind : (v : BitVector) → value v ≡ bit (first v) + 2 * value (behind v)
unfolding first behind
value-behind [] = refl
value-behind (b ∷ v) = refl

length-behind : (n : ℕ) (v : BitVector) → length v ≤ suc n → length (behind v) ≤ n
unfolding behind
length-behind n [] h = omega arith
length-behind n (b ∷ v) h = omega arith

pub length-addition_loop :
    (n : ℕ) (c : Bool) (lhs rhs : BitVector) → length (addition_loop n c lhs rhs).0 ≡ n
unfolding addition_loop
length-addition_loop zero c lhs rhs = refl
length-addition_loop (suc n) c lhs rhs =
    ap suc (length-addition_loop n (add_bits (first lhs) (first rhs) c).1 (behind lhs) (behind rhs))

-- The loop adds its operands and the carry, into the bits of the result and the last carry.
pub addition_loop_sum :
    (n : ℕ) (c : Bool) (lhs rhs : BitVector)
    → length lhs ≤ n
    → length rhs ≤ n
    → let (bits, last) = addition_loop n c lhs rhs in
      value bits + bit last * 2 ^ n ≡ value lhs + value rhs + bit c
unfolding addition_loop
addition_loop_sum zero c [] [] hl hr = omega arith
addition_loop_sum zero c (l ∷ lhs) rhs hl hr = absurd (omega arith)
addition_loop_sum zero c [] (r ∷ rhs) hl hr = absurd (omega arith)
addition_loop_sum (suc n) c lhs rhs hl hr =
    let (bit_here, c') = add_bits (first lhs) (first rhs) c in
    let (bits, last) = addition_loop n c' (behind lhs) (behind rhs) in
    omega (
      arith,
      addition_loop_sum n c' (behind lhs) (behind rhs) (length-behind n lhs hl)
          (length-behind n rhs hr),
      add_bits_sum (first lhs) (first rhs) c,
      value-behind lhs,
      value-behind rhs,
      ap (λ (t : ℕ). bit last * t) (pow-suc 2 n),
    )

pub value-addition : (lhs rhs : BitVector) → value (binary_addition lhs rhs) ≡ value lhs + value rhs
unfolding binary_addition
value-addition lhs rhs =
    let width = max (length lhs) (length rhs) in
    let (bits, last) = addition_loop width false lhs rhs in
    ground (
      arith,
      addition_loop_sum width false lhs rhs (omega arith) (omega arith),
      length-addition_loop width false lhs rhs,
      value-append bits (true ∷ []),
    )

-- The vector that `binary_addition` returns has the sum of the two values. It is as wide as the
-- wider operand, and one bit wider where the sum does not fit in that.
pub binary_addition_lem :
    (lhs rhs : BitVector)
    → let width = max (length lhs) (length rhs) in
      let sum = value lhs + value rhs in
      (value (binary_addition lhs rhs) ≡ sum)
      × (length (binary_addition lhs rhs) ≡ (if leb (2 ^ width) sum then suc width else width))
unfolding binary_addition
binary_addition_lem lhs rhs =
    let width = max (length lhs) (length rhs) in
    let (bits, last) = addition_loop width false lhs rhs in
    let long = length-addition_loop width false lhs rhs in
    (
      value-addition lhs rhs,
      ground (
        arith,
        addition_loop_sum width false lhs rhs (omega arith) (omega arith),
        long,
        ap (λ (n : ℕ). 2 ^ n) long,
        value-lt bits,
        length-append bits (true ∷ []),
      ),
    )

-- The difference of two vectors of one width is taken modulo 2 ^ width.
pub value-subtraction :
    (lhs rhs : BitVector)
    → length lhs ≡ length rhs
    → (value (binary_subtraction lhs rhs)
        ≡ (value lhs + 2 ^ length lhs - value rhs) % 2 ^ length lhs)
      × (length (binary_subtraction lhs rhs) ≡ length lhs)
unfolding binary_subtraction
value-subtraction lhs rhs e =
    let width : max (length lhs) (length rhs) ≡ length lhs = omega arith in
    let fits : value rhs < 2 ^ length lhs = rw e (value-lt rhs) in
    let regroup : value lhs + (2 ^ length lhs - value rhs)
        ≡ value lhs + 2 ^ length lhs - value rhs =
      omega arith in
    rw
      (
        width,
        expand_self lhs (length lhs) (omega arith),
        expand_self rhs (length lhs) (omega arith),
      )
      (
        value-clip _ (length lhs)
            ∙ ap (λ k. k % 2 ^ length lhs)
                (value-addition lhs (take_twos_complement rhs)
                  ∙ ap (λ k. value lhs + k) (value-complement rhs)
                  ∙ ap (λ k. value lhs + (2 ^ k - value rhs) % 2 ^ k) (sym e))
            ∙ add-mod-mod (value lhs) (2 ^ length lhs - value rhs) (2 ^ length lhs)
            ∙ ap (λ k. k % 2 ^ length lhs) regroup,
        length-clip _ (length lhs),
      )
