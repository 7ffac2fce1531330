-- ===== src/Bits/Wrapping/Division.antt =====
-- `binary_division` of src/types/bits.cpp: repeated subtraction of magnitudes, whose loop ends
-- within its fuel.
use native.Mathlib.Nat.{one-le-pow, mod-eq_of_lt, mod-add-mod}
use wudoovm.Common.{
  ℕ, zero, suc, ◌+◌, ◌-◌, ◌/◌, ◌%◌, ◌^◌, ◌≤◌, ◌<◌, ◌≡◌, refl, sym, ap, ap₂, ◌∙◌, subst, Bool, true,
  false, inl, inr, arith, length, replicate, length-replicate, leb, Bool-cases, if◌then◌else◌,
}
use wudoovm.Common.Outcome.{ok, throw}
use wudoovm.Bits.Error.{division_by_zero}
use wudoovm.Bits.Vector.{BitVector, binary_is_negative, binary_eq, binary_to_bool, differ}
use wudoovm.Common.Words.{mod_unique}
use wudoovm.Bits.Value.{value, value-lt, value-replicate-false, back_cases, value_injective}
use wudoovm.Bits.Wrapping.{
  binary_increment, binary_subtraction, take_twos_complement, division_loop, binary_division,
}
use wudoovm.Bits.Wrapping.Increment.{
  value-increment, length-increment, value-complement, length-complement,
}
use wudoovm.Bits.Wrapping.Addition.{value-subtraction}
use wudoovm.Bits.Wrapping.Comparison.{binary_lte-value, binary_eq-value, binary_to_bool-value}

div-step : (r d : ℕ) → 0 < d → d ≤ r → r / d ≡ suc ((r - d) / d)
div-step r d pos h = grind arith

div-small : (r d : ℕ) → r < d → r / d ≡ 0
div-small r d h = grind arith

-- What a round of the loop does to the remainder.
subtraction_exact :
    (r d : BitVector)
    → length r ≡ length d
    → value d ≤ value r
    → value (binary_subtraction r d) ≡ value r - value d
subtraction_exact r d e h =
    (value-subtraction r d e).0
    ∙ mod_unique (2 ^ length r) (value r - value d) 1 (value r + 2 ^ length r - value d)
        (omega (arith, value-lt r)) (omega arith)

-- With more fuel than the remainder is large the loop ends, and has added the quotient of the
-- remainder by the divisor, modulo 2 ^ width.
pub division_loop_quotient :
    (fuel : ℕ) (d r q : BitVector)
    → length r ≡ length d
    → 0 < value d
    → value r < fuel
    → (q' : BitVector) × (division_loop fuel d r q ≡ ok q')
      × (length q' ≡ length q)
      × (value q' ≡ (value q + value r / value d) % 2 ^ length q)
unfolding division_loop
division_loop_quotient zero d r q e pos h = absurd (omega arith)
division_loop_quotient (suc fuel) d r q e pos h = elim (Bool-cases (leb (value d) (value r))) [
  | inl more ↦
      let r' = binary_subtraction r d in
      let q1 = (binary_increment q).1 in
      let width : length r' ≡ length d = (value-subtraction r d e).1 ∙ e in
      let less : value r' ≡ value r - value d = subtraction_exact r d e (ground arith) in
      let (q', run, l, v) = division_loop_quotient fuel d r' q1 width pos (ground arith) in
      (
        q',
        rw ((binary_lte-value d r (sym e)).0, more) run,
        l ∙ length-increment q,
        v
            ∙ ap₂ (λ x y. (value q1 + x / value d) % 2 ^ y) less (length-increment q)
            ∙ ap (λ x. (x + (value r - value d) / value d) % 2 ^ length q) (value-increment q).0
            ∙ mod-add-mod (value q + 1) (2 ^ length q) ((value r - value d) / value d)
            ∙ ap (λ k. k % 2 ^ length q)
                (omega (arith, div-step (value r) (value d) pos (ground arith))),
      )
  | inr stop ↦ (
    q,
    rw ((binary_lte-value d r (sym e)).0, stop),
    refl,
    let none_left : value q + value r / value d ≡ value q =
          omega (arith, div-small (value r) (value d) (ground arith)) in
        rw none_left (sym (mod-eq_of_lt (value-lt q))),
  )
]

-- The absolute value of the two's complement reading.
abbrev pub magnitude : BitVector → ℕ
magnitude v = if binary_is_negative v then 2 ^ length v - value v else value v

-- The operand that the loop works on.
abbrev pub made_positive : BitVector → BitVector
made_positive v = if binary_is_negative v then take_twos_complement v else v

negative-pos :
    (m : ℕ) (v : BitVector) → length v ≡ suc m → binary_is_negative v ≡ true → 0 < value v
unfolding binary_is_negative
negative-pos m v e neg = let (low, lt, eq) = back_cases m v e in ground (arith, one-le-pow m 2)

pub made_positive_parts :
    (m : ℕ) (v : BitVector)
    → length v ≡ suc m
    → (value (made_positive v) ≡ magnitude v) × (length (made_positive v) ≡ length v)
made_positive_parts m v e = elim (Bool-cases (binary_is_negative v)) [
  | inl neg ↦
      let pos = negative-pos m v e neg in
      rw neg (value-complement v ∙ mod-eq_of_lt (omega (arith, value-lt v)), length-complement v)
  | inr plus ↦ rw plus (refl, refl)
]

pub magnitude_bounds :
    (m : ℕ) (v : BitVector)
    → length v ≡ suc m
    → 0 < value v
    → (0 < magnitude v) × (magnitude v < 2 ^ length v)
magnitude_bounds m v e pos = ground (arith, value-lt v)

-- The bits of a quotient: its magnitude, negated if the operands' signs differ.
abbrev pub quotient_bits : ℕ → Bool → ℕ → ℕ
quotient_bits w negative k = if negative then (2 ^ w - k) % 2 ^ w else k

-- The quotient that the loop finds for the magnitudes of two vectors of one width.
pub magnitudes_quotient :
    (m : ℕ) (dividend rhs : BitVector)
    → length dividend ≡ suc m
    → length rhs ≡ suc m
    → 0 < value rhs
    → (q : BitVector) × (division_loop
          (2 ^ length dividend)
          (made_positive rhs)
          (made_positive dividend)
          (replicate (length dividend) false)
        ≡ ok q)
      × (length q ≡ length dividend)
      × (value q ≡ magnitude dividend / magnitude rhs)
magnitudes_quotient m dividend rhs wd wr pos =
    let (vd, ld) = made_positive_parts m dividend wd in
    let (vr, lr) = made_positive_parts m rhs wr in
    let (mpos, mlt) = magnitude_bounds m rhs wr pos in
    let (q, run, l, v) =
      division_loop_quotient (2 ^ length dividend) (made_positive rhs) (made_positive dividend)
        (replicate (length dividend) false) (ld ∙ wd ∙ sym wr ∙ sym lr)
        (subst (λ k. 0 < k) (sym vr) mpos)
        (subst (λ k. value (made_positive dividend) < 2 ^ k) ld
          (value-lt (made_positive dividend))) in
    let small : magnitude dividend < 2 ^ length dividend =
      subst (λ k. magnitude dividend < 2 ^ k) ld
        (subst (λ k. k < 2 ^ length (made_positive dividend)) vd
          (value-lt (made_positive dividend))) in
    (
      q,
      run,
      l ∙ length-replicate (length dividend) false,
      v
          ∙ ap₂ (λ x y. x % 2 ^ y)
              (ap₂ (λ x y. x + y) (value-replicate-false (length dividend))
                (ap₂ (λ x y. x / y) vd vr))
              (length-replicate (length dividend) false)
          ∙ mod-eq_of_lt (omega arith)
          ∙ omega arith,
    )

-- Division by zero throws.
division-zero :
    (dividend rhs : BitVector)
    → value rhs ≡ 0
    → binary_division dividend rhs ≡ throw division_by_zero
unfolding binary_division
division-zero dividend rhs z = rw ((binary_to_bool-value rhs).1 z)

-- The steps of a division that reaches its loop.
division_steps :
    (dividend rhs q : BitVector)
    → binary_to_bool rhs ≡ true
    → binary_eq rhs dividend ≡ false
    → division_loop
        (2 ^ length dividend)
        (made_positive rhs)
        (made_positive dividend)
        (replicate (length dividend) false)
      ≡ ok q
    → binary_division dividend rhs
      ≡ ok (
          if differ (binary_is_negative rhs) (binary_is_negative dividend)
          then take_twos_complement q
          else q)
unfolding binary_division differ
division_steps dividend rhs q nonzero other run = rw (nonzero, other, run) (ground arith)

-- A vector divided by itself.
division_self :
    (dividend rhs : BitVector)
    → binary_to_bool rhs ≡ true
    → binary_eq rhs dividend ≡ true
    → binary_division dividend rhs ≡ ok (binary_increment (replicate (length dividend) false)).1
unfolding binary_division
division_self dividend rhs nonzero same = rw (nonzero, same)

differ_self : (b : Bool) → differ b b ≡ false
unfolding differ
differ_self true = refl
differ_self false = refl

quotient_self :
    (m : ℕ) (v : BitVector)
    → 0 < magnitude v
    → value (binary_increment (replicate (suc m) false)).1
      ≡ quotient_bits
          (suc m)
          (differ (binary_is_negative v) (binary_is_negative v))
          (magnitude v / magnitude v)
unfolding differ binary_increment
quotient_self m v pos =
    let one : magnitude v / magnitude v ≡ 1 = grind arith in
    rw (differ_self (binary_is_negative v), one) (omega (arith, value-replicate-false m))

value-quotient :
    (m : ℕ) (q : BitVector) (negative : Bool)
    → length q ≡ suc m
    → (length (if negative then take_twos_complement q else q) ≡ suc m)
      × (value (if negative then take_twos_complement q else q)
          ≡ quotient_bits (suc m) negative (value q))
value-quotient m q true e =
    (length-complement q ∙ e, value-complement q ∙ ap (λ k. (2 ^ k - value q) % 2 ^ k) e)
value-quotient m q false e = (e, refl)

-- For operands of one width n > 0 and a divisor that is not zero, the division ends without an
-- exception. It returns the quotient of the magnitudes, rounded towards zero, and negated modulo
-- 2 ^ n if exactly one operand is negative.
pub value-division :
    (m : ℕ) (dividend rhs : BitVector)
    → length dividend ≡ suc m
    → length rhs ≡ suc m
    → 0 < value rhs
    → (q : BitVector) × (binary_division dividend rhs ≡ ok q)
      × (length q ≡ suc m)
      × (value q
          ≡ quotient_bits
              (suc m)
              (differ (binary_is_negative rhs) (binary_is_negative dividend))
              (magnitude dividend / magnitude rhs))
value-division m dividend rhs wd wr pos =
    let (q, run, l, v) = magnitudes_quotient m dividend rhs wd wr pos in
    let negative = differ (binary_is_negative rhs) (binary_is_negative dividend) in
    let (width, bits) = value-quotient m q negative (l ∙ wd) in
    let nonzero : binary_to_bool rhs ≡ true = ground (arith, binary_to_bool-value rhs) in
    elim (Bool-cases (binary_eq rhs dividend)) [
      | inl same ↦
          let equal : rhs ≡ dividend =
            value_injective rhs dividend (wr ∙ sym wd)
              ((binary_eq-value rhs dividend (wr ∙ sym wd)).0 same) in
          (
            (binary_increment (replicate (length dividend) false)).1,
            division_self dividend rhs nonzero same,
            length-increment _ ∙ length-replicate (length dividend) false ∙ wd,
            ap (λ k. value (binary_increment (replicate k false)).1) wd
                ∙ quotient_self m rhs (magnitude_bounds m rhs wr pos).0
                ∙ ap
                    (λ (d : BitVector).
                      quotient_bits (suc m) (differ (binary_is_negative rhs) (binary_is_negative d))
                        (magnitude d / magnitude rhs))
                    equal,
          )
      | inr other ↦ (
        if negative then take_twos_complement q else q,
        division_steps dividend rhs q nonzero other run,
        width,
        bits ∙ ap (quotient_bits (suc m) negative) v,
      )
    ]
