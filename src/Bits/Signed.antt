-- ===== src/Bits/Signed.antt =====
-- The two's complement reading of the vectors of src/types/bits.cpp, and what it means that a
-- result is exact or saturated.
use native.Mathlib.Nat.{pow-suc}
use wudoovm.Common.{ℕ, suc, ◌+◌, ◌-◌, ◌*◌, ◌^◌, ◌≤◌, ◌<◌, ◌≡◌, ◌⊎◌, true, false, arith, length, leb}
use wudoovm.Common.Int.{ℤ, pos, pos_part, neg_part, sub_ℕ}
use wudoovm.Common.Outcome.{ok, throw}
use wudoovm.Bits.Error.{ArithmeticError}
use wudoovm.Bits.Vector.{BitVector, back, binary_is_negative}
use wudoovm.Bits.Value.{bit, bit-le, value, value-lt, back_cases}
use wudoovm.Bits.Checked.{Checked}

-- The number that the source's signed arithmetic takes a vector for.
abbrev pub signed : BitVector → ℤ
signed v = sub_ℕ (value v) (bit (binary_is_negative v) * 2 ^ length v)

-- The values of width m + 1.
abbrev pub InRange : ℕ → ℤ → Type 0
InRange m z = (pos_part z < 2 ^ m) × (neg_part z ≤ 2 ^ m)

abbrev pub OutOfRange : ℕ → ℤ → Type 0
OutOfRange m z = (2 ^ m ≤ pos_part z) ⊎ (2 ^ m < neg_part z)

-- A checked operation of width m + 1 that means `z`: it returns `z` if that is in range, and
-- otherwise throws `e`.
abbrev pub Exact : ℕ → ℤ → ArithmeticError → Checked → Type 0
Exact m z e x =
    ((r : BitVector) × InRange m z × (x ≡ ok r) × (length r ≡ suc m) × (signed r ≡ z))
    ⊎ (OutOfRange m z × (x ≡ throw e))

-- A saturating operation of width m + 1 that means `z`: the nearest value that is in range.
abbrev pub Saturated : ℕ → ℤ → BitVector → Type 0
Saturated m z r =
    (length r ≡ suc m)
    × ((InRange m z × (signed r ≡ z))
        ⊎ ((2 ^ m ≤ pos_part z) × (signed r ≡ pos (2 ^ m - 1)))
        ⊎ ((2 ^ m < neg_part z) × (signed r ≡ sub_ℕ 0 (2 ^ m))))

-- The sign is a comparison of the value.
negative-value :
    (m : ℕ) (v : BitVector) → length v ≡ suc m → binary_is_negative v ≡ leb (2 ^ m) (value v)
unfolding binary_is_negative
negative-value m v e = let (low, lt, eq) = back_cases m v e in ground (arith, bit-le (back v))

-- What is known of a vector of width m + 1.
pub record Reading (m : ℕ) (v : BitVector) : Type 0 where
  pub sign : binary_is_negative v ≡ leb (2 ^ m) (value v)
  pub bound : value v < 2 * 2 ^ m
  pub width : 2 ^ length v ≡ 2 * 2 ^ m

pub reading : (m : ℕ) (v : BitVector) → length v ≡ suc m → Reading m v
reading m v e =
    let w : 2 ^ length v ≡ 2 * 2 ^ m = rw e (omega (arith, pow-suc 2 m)) in
    record { sign = negative-value m v e; bound = omega (arith, value-lt v); width = w }

-- The reading as a case distinction on the value.
abbrev pub SignCases : ℕ → BitVector → Type 0
SignCases m v =
    ((value v < 2 ^ m)
      × (binary_is_negative v ≡ false)
      × (pos_part (signed v) ≡ value v)
      × (neg_part (signed v) ≡ 0))
    ⊎ ((2 ^ m ≤ value v)
        × (binary_is_negative v ≡ true)
        × (pos_part (signed v) ≡ 0)
        × (neg_part (signed v) + value v ≡ 2 * 2 ^ m))

pub signed_cases : (m : ℕ) (v : BitVector) → length v ≡ suc m → SignCases m v
signed_cases m v e = let r = reading m v e in ground arith
