-- ===== src/Bits/Checked/Addition.antt =====
-- `signed_add` of namespace `viua::arithmetic::checked` in src/types/bits.cpp: when it is exact,
-- and which sums in range it refuses.
use native.Mathlib.Nat.{pow-suc}
use wudoovm.Common.{
  ℕ, suc, ◌+◌, ◌-◌, ◌*◌, ◌^◌, ◌<◌, max, ◌≡◌, sym, ap, ◌∙◌, ◌⊎◌, inl, inr, Bool, true, false, not,
  arith, length, ltb, Bool-cases, if◌then◌else◌,
}
use wudoovm.Common.Int.{pos_part, neg_part, ◌+ℤ◌, +ℤ_parts, one_part, eq_of_parts}
use wudoovm.Common.Outcome.{ok, throw}
use wudoovm.Bits.Error.{checked_addition_overflow}
use wudoovm.Bits.Vector.{BitVector, binary_is_negative, differ}
use wudoovm.Bits.Value.{bit, value, expand_self}
use wudoovm.Bits.Signed.{signed, InRange, Exact, signed_cases, SignCases, Reading, reading}
use wudoovm.Bits.Wrapping.{addition_loop, compare_loop}
use wudoovm.Bits.Wrapping.Comparison.{compare_loop_order}
use wudoovm.Bits.Wrapping.Addition.{addition_loop_sum, length-addition_loop}
use wudoovm.Bits.Checked.{signed_lt, absolute, sum_should_be_negative, signed_add}

-- The bits of the sum.
abbrev pub sum_bits : BitVector → BitVector → BitVector
sum_bits lhs rhs = (addition_loop (max (length lhs) (length rhs)) false lhs rhs).0

-- Vectors of different signs, of one width.
signed_lt_negative :
    (lhs rhs : BitVector)
    → length lhs ≡ length rhs
    → binary_is_negative lhs ≡ false
    → binary_is_negative rhs ≡ true
    → signed_lt lhs rhs ≡ ok false
unfolding signed_lt
signed_lt_negative lhs rhs e l r =
    rw (expand_self lhs (max (length lhs) (length rhs)) (omega arith))
      (rw (expand_self rhs (max (length lhs) (length rhs)) (omega arith), l, r))

-- A vector that is not negative is, to `signed_lt`, less than itself.
signed_lt_self : (lhs : BitVector) → binary_is_negative lhs ≡ false → signed_lt lhs lhs ≡ ok true
unfolding signed_lt
signed_lt_self lhs l =
    let whole = expand_self lhs (max (length lhs) (length lhs)) (omega arith) in
    let same : compare_loop lhs lhs true (length lhs - 1) ≡ true =
      compare_loop_order lhs lhs true (length lhs - 1) ∙ ground arith in
    rw whole (rw (whole, l, absolute_self lhs l) (ap ok same))
  where
    absolute_self : (v : BitVector) → binary_is_negative v ≡ false → absolute v ≡ ok v
    absolute_self v h = unfold absolute in rw h

-- The sign that the code expects: negative exactly if `rhs` is.
should_be_negative :
    (lhs rhs : BitVector)
    → length lhs ≡ length rhs
    → sum_should_be_negative lhs rhs ≡ ok (binary_is_negative rhs)
unfolding sum_should_be_negative
should_be_negative lhs rhs e = elim (Bool-cases (binary_is_negative lhs)) [
  | inl l ↦ elim (Bool-cases (binary_is_negative rhs)) [
    | inl r ↦ rw (l, r)
    | inr r ↦ rw (l, r, signed_lt_negative rhs lhs (sym e) r l)
  ]
  | inr l ↦ elim (Bool-cases (binary_is_negative rhs)) [
    | inl r ↦ rw (l, r, signed_lt_self lhs l)
    | inr r ↦ rw (l, r)
  ]
]

signed_add_steps :
    (lhs rhs : BitVector)
    → length lhs ≡ length rhs
    → signed_add lhs rhs ≡ (
        if differ (binary_is_negative rhs) (binary_is_negative (sum_bits lhs rhs))
        then throw checked_addition_overflow
        else ok (sum_bits lhs rhs))
unfolding signed_add
signed_add_steps lhs rhs e = rw (should_be_negative lhs rhs e)

module _ (m : ℕ) (lhs rhs : BitVector) (l : length lhs ≡ suc m) (r : length rhs ≡ suc m) where
  sum_width : length (sum_bits lhs rhs) ≡ suc m
  sum_width = length-addition_loop (max (length lhs) (length rhs)) false lhs rhs ∙ omega arith

  carry : Bool
  carry = (addition_loop (max (length lhs) (length rhs)) false lhs rhs).1

  sum_value : value (sum_bits lhs rhs) + bit carry * (2 * 2 ^ m) ≡ value lhs + value rhs
  unfolding carry
  sum_value =
      let total =
        addition_loop_sum (max (length lhs) (length rhs)) false lhs rhs (omega arith)
          (omega arith) in
      let width : max (length lhs) (length rhs) ≡ suc m = omega arith in
      let power : 2 ^ max (length lhs) (length rhs) ≡ 2 * 2 ^ m =
        ap (λ k. 2 ^ k) width ∙ omega (arith, pow-suc 2 m) in
      omega (arith, total, ap (λ (t : ℕ). bit carry * t) power)

-- What is known of the sum of two vectors of width m + 1: enough for arithmetic to decide where it
-- lies.
pub record SumFacts (m : ℕ) (lhs rhs : BitVector) : Type 0 where
  pub width : length (sum_bits lhs rhs) ≡ suc m
  pub bound : value (sum_bits lhs rhs) < 2 * 2 ^ m
  pub carried :
      (value (sum_bits lhs rhs) ≡ value lhs + value rhs)
      ⊎ (value (sum_bits lhs rhs) + 2 * 2 ^ m ≡ value lhs + value rhs)
  pub of_lhs : SignCases m lhs
  pub of_rhs : SignCases m rhs
  pub of_sum : SignCases m (sum_bits lhs rhs)
  pub parts :
      let z = signed lhs +ℤ signed rhs in
      pos_part z + neg_part (signed lhs) + neg_part (signed rhs)
      ≡ neg_part z + pos_part (signed lhs) + pos_part (signed rhs)
  pub one_sided :
      (pos_part (signed lhs +ℤ signed rhs) ≡ 0) ⊎ (neg_part (signed lhs +ℤ signed rhs) ≡ 0)

pub sum_facts :
    (m : ℕ) (lhs rhs : BitVector) → length lhs ≡ suc m → length rhs ≡ suc m → SumFacts m lhs rhs
sum_facts m lhs rhs l r =
    let width = sum_width m lhs rhs l r in
    record {
      width = width;
      bound = Reading.bound (reading m (sum_bits lhs rhs) width);
      carried = carry_cases (carry m lhs rhs l r) _ _ _ (sum_value m lhs rhs l r);
      of_lhs = signed_cases m lhs l;
      of_rhs = signed_cases m rhs r;
      of_sum = signed_cases m (sum_bits lhs rhs) width;
      parts = +ℤ_parts (signed lhs) (signed rhs);
      one_sided = one_part (signed lhs +ℤ signed rhs);
    }
  where
    carry_cases : (c : Bool) (s t k : ℕ) → s + bit c * k ≡ t → (s ≡ t) ⊎ (s + k ≡ t)
    carry_cases true s t k h = inr (omega arith)
    carry_cases false s t k h = inl (omega arith)

module _ (m : ℕ) (lhs rhs : BitVector) (l : length lhs ≡ suc m) (r : length rhs ≡ suc m) where
  -- For operands of one width m + 1 and one sign, the sum is returned if it is in range, and
  -- otherwise an exception is thrown.
  pub signed_add-Exact :
      binary_is_negative lhs ≡ binary_is_negative rhs
      → Exact m (signed lhs +ℤ signed rhs) checked_addition_overflow (signed_add lhs rhs)
  unfolding differ
  signed_add-Exact same =
      let sum = sum_bits lhs rhs in
      let z = signed lhs +ℤ signed rhs in
      let facts = sum_facts m lhs rhs l r in
      elim (Bool-cases (differ (binary_is_negative rhs) (binary_is_negative sum))) [
        | inl over ↦ inr (ground arith, signed_add_steps lhs rhs (l ∙ sym r) ∙ rw over)
        | inr fine ↦ inl (
          sum,
          ground arith,
          signed_add_steps lhs rhs (l ∙ sym r) ∙ rw fine,
          facts.width,
          eq_of_parts (signed sum) z (ground arith),
        )
      ]

  -- Operands of different signs: the sum is always in range, but it is returned only if it has
  -- the sign of the right operand. If it has the sign of the left one, the code throws.
  pub signed_add-mixed :
      binary_is_negative lhs ≡ not (binary_is_negative rhs)
      → let z = signed lhs +ℤ signed rhs in
        InRange m z
        × (((ltb 0 (neg_part z) ≡ binary_is_negative rhs)
              × ((sum : BitVector) × (signed_add lhs rhs ≡ ok sum)
                  × (length sum ≡ suc m)
                  × (signed sum ≡ z)))
            ⊎ ((ltb 0 (neg_part z) ≡ binary_is_negative lhs)
                × (signed_add lhs rhs ≡ throw checked_addition_overflow)))
  unfolding differ
  signed_add-mixed mixed =
      let sum = sum_bits lhs rhs in
      let z = signed lhs +ℤ signed rhs in
      let facts = sum_facts m lhs rhs l r in
      (
        ground arith,
        elim (Bool-cases (differ (binary_is_negative rhs) (binary_is_negative sum))) [
          | inl over ↦ inr (ground arith, signed_add_steps lhs rhs (l ∙ sym r) ∙ rw over)
          | inr fine ↦ inl (
            ground arith,
            (
              sum,
              signed_add_steps lhs rhs (l ∙ sym r) ∙ rw fine,
              facts.width,
              eq_of_parts (signed sum) z (ground arith),
            ),
          )
        ],
      )
