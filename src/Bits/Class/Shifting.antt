-- ===== src/Bits/Class/Shifting.antt =====
-- The shift methods of the class `viua::types::Bits` in src/types/bits.cpp as arithmetic, and
-- what they do at the edges.
use native.Mathlib.Nat.{pow-suc, one-le-pow}
use wudoovm.Common.{
  ℕ, zero, suc, ◌+◌, ◌-◌, ◌*◌, ◌/◌, ◌%◌, ◌^◌, ◌≤◌, ◌<◌, ◌≡◌, sym, ap, ap₂, ◌∙◌, Bool, false, [],
  ◌++◌, arith, length, take, drop, replicate, get_or, length-append, length-drop, length-take,
  length-replicate, ltb, lt→ltb, if◌then◌else◌, ◌==◌, Bool-cases, inl, inr,
}
use wudoovm.Common.Outcome.{ok}
use wudoovm.Common.Words.{mod_unique}
use wudoovm.Bits.Value.{
  value, value-append, value-take, value-drop, value-replicate-false, take-drop_parts, pow-suc_mul,
}
use wudoovm.Bits.Shift.{sub_size, Shifted}
use wudoovm.Bits.Shift.Right.{shr_inside, shr_outside, shr_zero}
use wudoovm.Bits.Shift.Left.{shl_inside}
use wudoovm.Bits.Shift.Edges.{shl_outside, shl_zero}
use wudoovm.Bits.Class.{Bits, of_vector, size, shl, shr, shr_padding, at, ashr}
use wudoovm.Bits.Class.Arithmetic.{number}

pow-add_sub : (n w : ℕ) → n ≤ w → 2 ^ w ≡ 2 ^ n * 2 ^ (w - n)
pow-add_sub zero w h = let k : w - 0 ≡ w = omega arith in rw k (omega arith)
pow-add_sub (suc n) (suc w) h =
    let k : suc w - suc n ≡ w - n = omega arith in
    rw k (omega (arith, pow-suc 2 w, pow-suc_mul n (2 ^ (w - n)), pow-add_sub n w (omega arith)))
pow-add_sub (suc n) zero h = absurd (omega arith)

scaled_lt : (p q low : ℕ) → 0 < p → low < q → 0 + p * low < p * q
scaled_lt p q low pos h = grind arith

scaled_parts : (p q low high v : ℕ) → v ≡ low + q * high → 0 + p * low + p * q * high ≡ v * p
scaled_parts p q low high v h = omega (arith, ap (λ (t : ℕ). t * p) h)

-- Shifting right by 0 < n < width divides by 2 ^ n, and gives back the remainder.
pub shr-number :
    (b : Bits) (n : ℕ)
    → 0 < n
    → n < size b
    → let (after, lost) = shr b n in
      (size after ≡ size b)
      × (number after ≡ number b / 2 ^ n)
      × (size lost ≡ n)
      × (number lost ≡ number b % 2 ^ n)
unfolding shr
shr-number b n pos inside =
    let v = b.underlying_array in
    rw (shr_inside n false v pos inside) (
      omega (
        arith,
        length-append (drop n v) (replicate n false),
        length-drop n v,
        length-replicate n false,
      ),
      value-append (drop n v) (replicate n false)
          ∙ ap (λ k. value (drop n v) + 2 ^ length (drop n v) * k) (value-replicate-false n)
          ∙ omega (arith, value-drop n v),
      omega (arith, length-take n v),
      value-take n v,
    )

-- Shifting left by 0 < n < width, for a width of at most 2 ^ 63, multiplies by 2 ^ n modulo
-- 2 ^ width, and gives back the n highest bits.
pub shl-number :
    (b : Bits) (n : ℕ)
    → 0 < n
    → n < size b
    → size b ≤ 2 ^ 63
    → let (after, lost) = shl b n in
      (size after ≡ size b)
      × (number after ≡ number b * 2 ^ n % 2 ^ size b)
      × (size lost ≡ n)
      × (number lost ≡ number b / 2 ^ (size b - n))
unfolding shl
shl-number b n pos inside fits =
    let v = b.underlying_array in
    let low = take (length v - n) v in
    let width = pow-add_sub n (length v) (omega arith) in
    let (lt, parts) = take-drop_parts (length v - n) v in
    rw (shl_inside n v pos inside fits) (
      omega (
        arith,
        length-append (replicate n false) low,
        length-take (length v - n) v,
        length-replicate n false,
      ),
      value-append (replicate n false) low
          ∙ ap₂ (λ x k. x + 2 ^ k * value low) (value-replicate-false n) (length-replicate n false)
          ∙ sym (
              mod_unique (2 ^ length v) (0 + 2 ^ n * value low) (value (drop (length v - n) v))
                (value v * 2 ^ n)
                (rw width (
                  scaled_lt (2 ^ n) (2 ^ (length v - n)) (value low) (one-le-pow n 2 (omega arith))
                    lt))
                (rw width (
                  scaled_parts (2 ^ n) (2 ^ (length v - n)) (value low)
                    (value (drop (length v - n) v)) (value v) parts))),
      omega (arith, length-drop (length v - n) v),
      value-drop (length v - n) v,
    )

-- A shift by zero, for a width of at most 2 ^ 63, clears the object in either direction, and
-- gives no bits back.
pub shift-zero :
    (b : Bits)
    → size b ≤ 2 ^ 63
    → (shl b 0 ≡ (of_vector (replicate (size b) false), of_vector []))
      × (shr b 0 ≡ (of_vector (replicate (size b) false), of_vector []))
unfolding shl shr
shift-zero b fits = (
  ap (λ (s : Shifted). (of_vector s.1, of_vector s.0)) (shl_zero b.underlying_array fits),
  ap (λ (s : Shifted). (of_vector s.1, of_vector s.0)) (shr_zero false b.underlying_array),
)

-- A shift by the width or more clears the object in either direction. The bits that it gives back
-- are all bits of the object, with zeroes below them for `shl` and above them for `shr`.
shift-wide :
    (b : Bits) (n : ℕ)
    → size b ≤ n
    → n < 2 ^ 64
    → let blank = replicate (n - size b) false in
      (shl b n ≡ (of_vector (replicate (size b) false), of_vector (blank ++ b.underlying_array)))
      × (shr b n ≡ (of_vector (replicate (size b) false), of_vector (b.underlying_array ++ blank)))
unfolding shl shr
shift-wide b n wide bound = (
  ap (λ (s : Shifted). (of_vector s.1, of_vector s.0))
      (shl_outside n b.underlying_array wide bound),
  ap (λ (s : Shifted). (of_vector s.1, of_vector s.0))
      (shr_outside n false b.underlying_array wide),
)

positive : (n : ℕ) → (suc n == 0) ≡ false
positive n = ground arith

-- A shift right with a padding, by the size of the shift.
shr_padding-cases :
    (w : ℕ) (b : Bits) (n : ℕ) (padding : Bool)
    → size b ≡ w
    → shr_padding b n padding ≡ (
        if n == 0
        then (of_vector (replicate w padding), of_vector [])
        else if ltb n w
        then (
          of_vector (drop n b.underlying_array ++ replicate n padding),
          of_vector (take n b.underlying_array),
        )
        else (
          of_vector (replicate w false),
          of_vector (b.underlying_array ++ replicate (n - w) false),
        ))
unfolding shr_padding
shr_padding-cases w b zero padding e =
    ap (λ (s : Shifted). (of_vector s.1, of_vector s.0)) (shr_zero padding b.underlying_array)
    ∙ ap (λ k. (of_vector (replicate k padding), of_vector [])) e
shr_padding-cases w b (suc n) padding e = elim (Bool-cases (ltb (suc n) w)) [
  | inl inside ↦
      rw (positive n, inside)
        (ap (λ (s : Shifted). (of_vector s.1, of_vector s.0))
          (shr_inside (suc n) padding b.underlying_array (omega arith) (ground arith)))
  | inr wide ↦
      rw (positive n, wide)
        (ap (λ (s : Shifted). (of_vector s.1, of_vector s.0))
            (shr_outside (suc n) padding b.underlying_array (ground arith))
          ∙ ap
              (λ k. (
                of_vector (replicate k false),
                of_vector (b.underlying_array ++ replicate (suc n - k) false),
              ))
              e)
]

-- The arithmetic shift right of an object of width m + 1, at most 2 ^ 63, fills up with the highest bit only for
-- 0 < n < width: by zero it copies that bit everywhere, and by the width or more it clears the
-- object, also a negative one.
pub ashr-cases :
    (m : ℕ) (b : Bits) (n : ℕ)
    → size b ≡ suc m
    → suc m ≤ 2 ^ 63
    → let sign = get_or b.underlying_array m false in
      let v = b.underlying_array in
      ashr b n
      ≡ ok (
          if n == 0
          then (of_vector (replicate (suc m) sign), of_vector [])
          else if ltb n (suc m)
          then (of_vector (drop n v ++ replicate n sign), of_vector (take n v))
          else (of_vector (replicate (suc m) false), of_vector (v ++ replicate (n - suc m) false)))
unfolding ashr at
ashr-cases m b n e fits =
    let top : sub_size (size b) 1 ≡ m = highest (size b) e in
    rw (top, lt→ltb m (size b) (omega arith))
      (ap ok (shr_padding-cases (suc m) b n (get_or b.underlying_array m false) e))
  where
    highest : (w : ℕ) → w ≡ suc m → sub_size w 1 ≡ m
    highest w h = unfold sub_size in omega arith
