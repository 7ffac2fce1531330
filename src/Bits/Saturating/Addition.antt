-- ===== src/Bits/Saturating/Addition.antt =====
-- `signed_add` of namespace `viua::arithmetic::saturating` in src/types/bits.cpp: when it
-- saturates as it should, and what it makes of operands of different signs.
use native.Mathlib.Nat.{one-le-pow}
use wudoovm.Common.{
  ℕ, suc, ◌-◌, ◌^◌, max, ◌≡◌, sym, ap, ap₂, subst, ◌∙◌, inl, inr, Bool, true, false, not, arith,
  length, ltb, Bool-cases, if◌then◌else◌,
}
use wudoovm.Common.Int.{ℤ, pos, neg_part, sub_ℕ, ◌+ℤ◌, eq_of_parts}
use wudoovm.Bits.Vector.{BitVector, binary_is_negative}
use wudoovm.Bits.Value.{expand_self}
use wudoovm.Bits.Signed.{signed, InRange, Saturated, signed_cases}
use wudoovm.Bits.Wrapping.{compare_loop}
use wudoovm.Bits.Wrapping.Comparison.{compare_loop_order}
use wudoovm.Bits.Checked.Addition.{sum_bits, sum_facts}
use wudoovm.Bits.Saturating.{
  signed_make_max, signed_make_min, signed_lt, absolute, sum_should_be_negative, signed_add,
}
use wudoovm.Bits.Saturating.Increment.{make_max-signed, make_min-signed}

signed_lt_negative :
    (lhs rhs : BitVector)
    → length lhs ≡ length rhs
    → binary_is_negative lhs ≡ false
    → binary_is_negative rhs ≡ true
    → signed_lt lhs rhs ≡ false
unfolding signed_lt
signed_lt_negative lhs rhs e l r =
    rw (expand_self lhs (max (length lhs) (length rhs)) (omega arith))
      (rw (expand_self rhs (max (length lhs) (length rhs)) (omega arith), l, r))

signed_lt_self : (lhs : BitVector) → binary_is_negative lhs ≡ false → signed_lt lhs lhs ≡ true
unfolding signed_lt
signed_lt_self lhs l =
    let whole = expand_self lhs (max (length lhs) (length lhs)) (omega arith) in
    let same : compare_loop lhs lhs true (length lhs - 1) ≡ true =
      compare_loop_order lhs lhs true (length lhs - 1) ∙ ground arith in
    rw whole (rw (whole, l, absolute_self lhs l) same)
  where
    absolute_self : (v : BitVector) → binary_is_negative v ≡ false → absolute v ≡ v
    absolute_self v h = unfold absolute in rw h

should_be_negative :
    (lhs rhs : BitVector)
    → length lhs ≡ length rhs
    → sum_should_be_negative lhs rhs ≡ binary_is_negative rhs
unfolding sum_should_be_negative
should_be_negative lhs rhs e = elim (Bool-cases (binary_is_negative lhs)) [
  | inl l ↦ elim (Bool-cases (binary_is_negative rhs)) [
    | inl r ↦ rw (l, r)
    | inr r ↦ rw (l, r, signed_lt_negative rhs lhs (sym e) r l)
  ]
  | inr l ↦ elim (Bool-cases (binary_is_negative rhs)) [
    | inl r ↦ rw (l, r, signed_lt_self lhs l)
    | inr r ↦ rw (l, r)
  ]
]

-- The bounds of width m + 1 and their readings.
record Bound (m : ℕ) (v : BitVector) (z : ℤ) : Type 0 where
  width : length v ≡ suc m
  reads : signed v ≡ z

top_facts : (m : ℕ) → Bound m (signed_make_max (suc m)) (pos (2 ^ m - 1))
top_facts m =
    let (w, v) = make_max-signed m in
    let cases = signed_cases m (signed_make_max (suc m)) w in
    let one = one-le-pow m 2 in
    record {
      width = w;
      reads = eq_of_parts (signed (signed_make_max (suc m))) (pos (2 ^ m - 1)) (ground arith);
    }

low_facts : (m : ℕ) → Bound m (signed_make_min (suc m)) (sub_ℕ 0 (2 ^ m))
low_facts m =
    let (w, v) = make_min-signed m in
    let cases = signed_cases m (signed_make_min (suc m)) w in
    let one = one-le-pow m 2 in
    record {
      width = w;
      reads = eq_of_parts (signed (signed_make_min (suc m))) (sub_ℕ 0 (2 ^ m)) (ground arith);
    }

module _ (m : ℕ) (lhs rhs : BitVector) (l : length lhs ≡ suc m) (r : length rhs ≡ suc m) where
  -- The result by the sign of the right operand and that of the bits of the sum.
  signed_add_steps : signed_add lhs rhs ≡ (
      if binary_is_negative rhs
      then (if binary_is_negative (sum_bits lhs rhs)
          then sum_bits lhs rhs
          else signed_make_min (suc m))
      else (if binary_is_negative (sum_bits lhs rhs)
          then signed_make_max (suc m)
          else sum_bits lhs rhs))
  unfolding signed_add
  signed_add_steps =
      rw (should_be_negative lhs rhs (l ∙ sym r), l)
        (elim (Bool-cases (binary_is_negative rhs)) [
          | inl n ↦ rw n (ground arith)
          | inr p ↦ rw p (ground arith)
        ])

  -- For operands of one width m + 1 and one sign, the sum, or the nearest value to it that is in
  -- range.
  pub signed_add-Saturated :
      binary_is_negative lhs ≡ binary_is_negative rhs
      → Saturated m (signed lhs +ℤ signed rhs) (signed_add lhs rhs)
  signed_add-Saturated same =
      let sum = sum_bits lhs rhs in
      let z = signed lhs +ℤ signed rhs in
      let facts = sum_facts m lhs rhs l r in
      let top = top_facts m in
      let low = low_facts m in
      elim (Bool-cases (binary_is_negative rhs)) [
        | inl n ↦ elim (Bool-cases (binary_is_negative sum)) [
          | inl fine ↦
              subst (Saturated m z) (sym (signed_add_steps ∙ rw (n, fine)))
                (facts.width, inl (ground arith, eq_of_parts (signed sum) z (ground arith)))
          | inr over ↦
              subst (Saturated m z) (sym (signed_add_steps ∙ rw (n, over)))
                (low.width, inr (inr (ground arith, low.reads)))
        ]
        | inr p ↦ elim (Bool-cases (binary_is_negative sum)) [
          | inl over ↦
              subst (Saturated m z) (sym (signed_add_steps ∙ rw (p, over)))
                (top.width, inr (inl (ground arith, top.reads)))
          | inr fine ↦
              subst (Saturated m z) (sym (signed_add_steps ∙ rw (p, fine)))
                (facts.width, inl (ground arith, eq_of_parts (signed sum) z (ground arith)))
        ]
      ]

  -- For operands of one width m + 1 and different signs, the sum is always in range, but it is returned only if it has
  -- the sign of the right operand. Otherwise the code returns the least value for a negative
  -- right operand, and the greatest value for one that is not negative.
  pub signed_add-mixed_signs :
      binary_is_negative lhs ≡ not (binary_is_negative rhs)
      → let z = signed lhs +ℤ signed rhs in
        InRange m z
        × (signed (signed_add lhs rhs) ≡ (
            if binary_is_negative rhs
            then (if ltb 0 (neg_part z) then z else sub_ℕ 0 (2 ^ m))
            else (if ltb 0 (neg_part z) then pos (2 ^ m - 1) else z)))
  signed_add-mixed_signs mixed =
      let sum = sum_bits lhs rhs in
      let z = signed lhs +ℤ signed rhs in
      let facts = sum_facts m lhs rhs l r in
      let top = top_facts m in
      let low = low_facts m in
      let negative : ltb 0 (neg_part z) ≡ binary_is_negative sum = ground arith in
      (
        ground arith,
        elim (Bool-cases (binary_is_negative rhs)) [
          | inl n ↦ elim (Bool-cases (binary_is_negative sum)) [
            | inl fine ↦
                ap signed (signed_add_steps ∙ rw (n, fine))
                ∙ eq_of_parts (signed sum) z (ground arith)
                ∙ sym (ap₂ pick n (negative ∙ fine))
            | inr over ↦
                ap signed (signed_add_steps ∙ rw (n, over))
                ∙ low.reads
                ∙ sym (ap₂ pick n (negative ∙ over))
          ]
          | inr p ↦ elim (Bool-cases (binary_is_negative sum)) [
            | inl over ↦
                ap signed (signed_add_steps ∙ rw (p, over))
                ∙ top.reads
                ∙ sym (ap₂ pick p (negative ∙ over))
            | inr fine ↦
                ap signed (signed_add_steps ∙ rw (p, fine))
                ∙ eq_of_parts (signed sum) z (ground arith)
                ∙ sym (ap₂ pick p (negative ∙ fine))
          ]
        ],
      )
    where
      -- The result that the statement names, by the two signs.
      pick : Bool → Bool → ℤ
      pick a b =
          let z = signed lhs +ℤ signed rhs in
          if a then (if b then z else sub_ℕ 0 (2 ^ m)) else (if b then pos (2 ^ m - 1) else z)
