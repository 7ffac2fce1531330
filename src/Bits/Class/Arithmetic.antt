-- ===== src/Bits/Class/Arithmetic.antt =====
-- The arithmetic methods of the class `viua::types::Bits` in src/types/bits.cpp, which clip what
-- the namespaces compute to the width of the object.
use wudoovm.Common.{
  ℕ, suc, ◌+◌, ◌-◌, ◌*◌, ◌/◌, ◌%◌, ◌^◌, ◌<◌, ◌≡◌, sym, ap, ap₂, subst, ◌∙◌, ◌⊎◌, inl, inr, not,
  arith, length, ltb, Bool-cases,
}
use wudoovm.Common.Int.{neg_part, ◌+ℤ◌}
use wudoovm.Common.Outcome.{ok, throw}
use wudoovm.Bits.Error.{ArithmeticError, checked_addition_overflow}
use wudoovm.Bits.Vector.{BitVector, binary_is_negative, differ}
use wudoovm.Common.Words.{mod_unique}
use wudoovm.Bits.Value.{
  value, value-lt, value_injective, value-clip, length-clip, clip_self, differ_opposite,
  differ_same,
}
use wudoovm.Bits.Signed.{signed, InRange, OutOfRange}
use wudoovm.Bits.Checked.{signed_add}
use wudoovm.Bits.Checked.Addition.{sum_facts, signed_add-Exact, signed_add-mixed}
use wudoovm.Bits.Wrapping.{binary_addition, binary_subtraction, binary_multiplication}
use wudoovm.Bits.Wrapping.Addition.{value-addition, value-subtraction}
use wudoovm.Bits.Wrapping.Multiplication.{value-multiplication}
use wudoovm.Bits.Wrapping.Division.{value-division, magnitude, quotient_bits}
use wudoovm.Bits.Class.{
  Bits, of_vector, size, wrapadd, wrapsub, wrapmul, wrapdiv, checked_signed_add,
}

abbrev pub number : Bits → ℕ
number b = value b.underlying_array

-- Wrapping addition and multiplication keep the width of the left operand, and compute the sum
-- and the product modulo 2 ^ width, whatever the width of the right operand is.
pub wrapadd-wrapmul-number :
    (a b : Bits)
    → (size (wrapadd a b) ≡ size a)
      × (number (wrapadd a b) ≡ (number a + number b) % 2 ^ size a)
      × (size (wrapmul a b) ≡ size a)
      × (number (wrapmul a b) ≡ number a * number b % 2 ^ size a)
unfolding wrapadd wrapmul
wrapadd-wrapmul-number a b =
    let l = a.underlying_array in
    let r = b.underlying_array in
    (
      length-clip (binary_addition l r) (size a),
      value-clip (binary_addition l r) (size a) ∙ ap (λ k. k % 2 ^ size a) (value-addition l r),
      length-clip (binary_multiplication l r) (size a),
      value-clip (binary_multiplication l r) (size a)
          ∙ ap (λ k. k % 2 ^ size a) (value-multiplication l r),
    )

-- Wrapping subtraction of operands of one width computes the difference modulo 2 ^ width.
wrapsub-number :
    (a b : Bits)
    → size a ≡ size b
    → (size (wrapsub a b) ≡ size a)
      × (number (wrapsub a b) ≡ (number a + 2 ^ size a - number b) % 2 ^ size a)
unfolding wrapsub
wrapsub-number a b e =
    let (v, w) = value-subtraction a.underlying_array b.underlying_array e in
    let same = clip_self (binary_subtraction a.underlying_array b.underlying_array) (size a) w in
    (ap length same ∙ w, ap value same ∙ v)

undo : (m x y : ℕ) → x < m → y < m → ((x + y) % m + m - y) % m ≡ x
undo m x y hx hy = elim (Bool-cases (ltb (x + y) m)) [
  | inl small ↦
      let kept : (x + y) % m ≡ x + y =
        mod_unique m (x + y) 0 (x + y) (ground arith) (omega arith) in
      rw kept (mod_unique m x 1 (x + y + m - y) hx (omega arith))
  | inr large ↦
      let wrapped : (x + y) % m ≡ x + y - m =
        mod_unique m (x + y - m) 1 (x + y) (ground arith) (ground arith) in
      rw wrapped (mod_unique m x 0 (x + y - m + m - y) hx (ground arith))
]

-- Subtracting what was added gives the object back, for operands of one width.
wrapsub-wrapadd : (a b : Bits) → size a ≡ size b → wrapsub (wrapadd a b) b ≡ a
wrapsub-wrapadd a b e =
    let (w, v) = sum a b in
    let (w', v') = wrapsub-number (wrapadd a b) b (w ∙ e) in
    ap of_vector (
      value_injective (wrapsub (wrapadd a b) b).underlying_array a.underlying_array (w' ∙ w) (
        v'
        ∙ ap₂ (λ (x k : ℕ). (x + 2 ^ k - number b) % 2 ^ k) v w
        ∙ undo (2 ^ size a) (number a) (number b) (value-lt a.underlying_array)
            (subst (λ k. number b < 2 ^ k) (sym e) (value-lt b.underlying_array))))
  where
    sum :
        (x y : Bits)
        → (size (wrapadd x y) ≡ size x)
          × (number (wrapadd x y) ≡ (number x + number y) % 2 ^ size x)
    sum x y = let s = wrapadd-wrapmul-number x y in (s.0, s.1)

-- Wrapping division of operands of one width n > 0 by a divisor that is not zero ends without an
-- exception, with the truncated quotient of the signed readings modulo 2 ^ n.
wrapdiv-number :
    (m : ℕ) (a b : Bits)
    → size a ≡ suc m
    → size b ≡ suc m
    → 0 < number b
    → (q : Bits) × (wrapdiv a b ≡ ok q)
      × (size q ≡ suc m)
      × (number q
          ≡ quotient_bits
              (suc m)
              (differ
                (binary_is_negative b.underlying_array)
                (binary_is_negative a.underlying_array))
              (magnitude a.underlying_array / magnitude b.underlying_array))
unfolding wrapdiv
wrapdiv-number m a b wa wb pos =
    let (q, run, w, v) = value-division m a.underlying_array b.underlying_array wa wb pos in
    (of_vector q, rw run (ap (λ x. ok (of_vector x)) (clip_self q (size a) (w ∙ sym wa))), w, v)

clipped_ok :
    (a b : Bits) (sum : BitVector)
    → signed_add a.underlying_array b.underlying_array ≡ ok sum
    → length sum ≡ size a
    → checked_signed_add a b ≡ ok (of_vector sum)
unfolding checked_signed_add
clipped_ok a b sum run w = rw run (ap (λ x. ok (of_vector x)) (clip_self sum (size a) w))

clipped_throw :
    (a b : Bits) {e : ArithmeticError}
    → signed_add a.underlying_array b.underlying_array ≡ throw e
    → checked_signed_add a b ≡ throw e
unfolding checked_signed_add
clipped_throw a b run = rw run

-- Checked addition of objects of one width m + 1, by the signs of the operands. With one sign the
-- sum is exact, or out of range and refused. With different signs it is in range, and refused
-- exactly if it has the sign of the left operand.
pub checked_add-cases :
    (m : ℕ) (a b : Bits)
    → size a ≡ suc m
    → size b ≡ suc m
    → let z = signed a.underlying_array +ℤ signed b.underlying_array in
      let negative = λ (x : Bits). binary_is_negative x.underlying_array in
      ((sum : Bits) × (checked_signed_add a b ≡ ok sum)
        × (size sum ≡ suc m)
        × (signed sum.underlying_array ≡ z)
        × (ltb 0 (neg_part z) ≡ negative b))
      ⊎ ((checked_signed_add a b ≡ throw checked_addition_overflow)
          × (OutOfRange m z
              ⊎ (InRange m z
                  × (negative a ≡ not (negative b))
                  × (ltb 0 (neg_part z) ≡ negative a))))
checked_add-cases m a b wa wb =
    let l = a.underlying_array in
    let r = b.underlying_array in
    let facts = sum_facts m l r wa wb in
    elim (Bool-cases (differ (binary_is_negative l) (binary_is_negative r))) [
      | inl mixed ↦
          let opposite = differ_opposite (binary_is_negative l) (binary_is_negative r) mixed in
          let (fits, cases) = signed_add-mixed m l r wa wb opposite in
          elim cases [
            | inl (sign, (sum, run, w, v)) ↦
                inl (of_vector sum, clipped_ok a b sum run (w ∙ sym wa), w, v, sign)
            | inr (sign, run) ↦ inr (clipped_throw a b run, inr (fits, opposite, sign))
          ]
      | inr alike ↦
          let same = differ_same (binary_is_negative l) (binary_is_negative r) alike in
          elim (signed_add-Exact m l r wa wb same) [
            | inl (sum, fits, run, w, v) ↦
                inl (of_vector sum, clipped_ok a b sum run (w ∙ sym wa), w, v, ground arith)
            | inr (out, run) ↦ inr (clipped_throw a b run, inl out)
          ]
    ]
