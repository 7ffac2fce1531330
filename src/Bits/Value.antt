-- ===== src/Bits/Value.antt =====
-- The number that a bit vector of src/types/bits.cpp stands for, and how the helpers of the
-- source change it.
use mathlib.Core.List.{append-nil}
use native.Mathlib.Nat.{mod-eq_of_lt, pow-suc, one-le-pow}
use wudoovm.Common.{
  Bool, not, subst, ◌↔◌, ℕ, zero, suc, ◌+◌, ◌-◌, ◌*◌, ◌/◌, ◌%◌, ◌^◌, ◌≤◌, ◌<◌, min, ◌≡◌, refl, sym,
  ap, ap₂, ◌∙◌, true, false, [], ◌∷◌, ◌++◌, arith, length, take, drop, replicate, length-append,
  length-replicate, length-take, take_all,
}
use wudoovm.Common.Words.{mod_of_parts, div_of_parts}
use wudoovm.Bits.Vector.{
  BitVector, back, binary_expand, binary_clip, binary_inversion, vector_eq, differ,
}

abbrev pub bit : Bool → ℕ
bit true = 1
bit false = 0

-- The unsigned reading.
abbrev pub value : BitVector → ℕ
value [] = 0
value (b ∷ v) = bit b + 2 * value v

pub pow-suc_mul : (n k : ℕ) → 2 ^ suc n * k ≡ 2 * (2 ^ n * k)
pow-suc_mul n k = omega (arith, ap (λ (t : ℕ). t * k) (pow-suc 2 n))

pub bit-le : (b : Bool) → bit b ≤ 1
bit-le true = omega arith
bit-le false = omega arith

pub value-lt : (v : BitVector) → value v < 2 ^ length v
value-lt [] = omega arith
value-lt (b ∷ v) = omega (arith, value-lt v, bit-le b, pow-suc 2 (length v))

pub value-append : (u v : BitVector) → value (u ++ v) ≡ value u + 2 ^ length u * value v
value-append [] v = omega arith
value-append (b ∷ u) v = grind (arith, value-append u v, pow-suc 2 (length u))

pub value-replicate-false : (n : ℕ) → value (replicate n false) ≡ 0
value-replicate-false zero = refl
value-replicate-false (suc n) = omega (arith, value-replicate-false n)

pub value-replicate-true : (n : ℕ) → value (replicate n true) + 1 ≡ 2 ^ n
value-replicate-true zero = refl
value-replicate-true (suc n) = omega (arith, value-replicate-true n, pow-suc 2 n)

-- A vector is determined by its width and its value.
pub value_injective : (u v : BitVector) → length u ≡ length v → value u ≡ value v → u ≡ v
value_injective [] [] l e = refl
value_injective [] (y ∷ v) l e = absurd (omega arith)
value_injective (x ∷ u) [] l e = absurd (omega arith)
value_injective (true ∷ u) (true ∷ v) l e =
    ap (◌∷◌ true) (value_injective u v (omega arith) (omega arith))
value_injective (true ∷ u) (false ∷ v) l e = absurd (omega arith)
value_injective (false ∷ u) (true ∷ v) l e = absurd (omega arith)
value_injective (false ∷ u) (false ∷ v) l e =
    ap (◌∷◌ false) (value_injective u v (omega arith) (omega arith))

-- Taking the low bits is a remainder, dropping them a division.
pub take-drop_parts :
    (n : ℕ) (v : BitVector)
    → (value (take n v) < 2 ^ n) × (value v ≡ value (take n v) + 2 ^ n * value (drop n v))
take-drop_parts zero v = (omega arith, omega arith)
take-drop_parts (suc n) [] = (omega (arith, one-le-pow (suc n) 2), omega arith)
take-drop_parts (suc n) (b ∷ v) =
    let (lt, eq) = take-drop_parts n v in
    (omega (arith, lt, bit-le b, pow-suc 2 n), omega (arith, eq, pow-suc_mul n (value (drop n v))))

pub value-take : (n : ℕ) (v : BitVector) → value (take n v) ≡ value v % 2 ^ n
value-take n v =
    let (lt, eq) = take-drop_parts n v in
    sym (ap (λ k. k % 2 ^ n) eq ∙ mod_of_parts (2 ^ n) (value (take n v)) (value (drop n v)) lt)

pub value-drop : (n : ℕ) (v : BitVector) → value (drop n v) ≡ value v / 2 ^ n
value-drop n v =
    let (lt, eq) = take-drop_parts n v in
    sym (ap (λ k. k / 2 ^ n) eq ∙ div_of_parts (2 ^ n) (value (take n v)) (value (drop n v)) lt)

pub length-inversion : (v : BitVector) → length (binary_inversion v) ≡ length v
unfolding binary_inversion
length-inversion [] = refl
length-inversion (b ∷ v) = ap suc (length-inversion v)

pub value-inversion : (v : BitVector) → value (binary_inversion v) + value v + 1 ≡ 2 ^ length v
unfolding binary_inversion
value-inversion [] = refl
value-inversion (true ∷ v) = omega (arith, value-inversion v, pow-suc 2 (length v))
value-inversion (false ∷ v) = omega (arith, value-inversion v, pow-suc 2 (length v))

-- The highest bit of a vector of width n + 1 weighs 2 ^ n.
pub back_cases :
    (n : ℕ) (v : BitVector)
    → length v ≡ suc n
    → (low : ℕ) × (low < 2 ^ n) × (value v ≡ low + bit (back v) * 2 ^ n)
unfolding back
back_cases n [] e = absurd (omega arith)
back_cases zero (b ∷ []) e = (0, omega arith, omega arith)
back_cases (suc n) (b ∷ []) e = absurd (omega arith)
back_cases zero (b ∷ c ∷ v) e = absurd (omega arith)
back_cases (suc n) (b ∷ c ∷ v) e =
    let (low, lt, eq) = back_cases n (c ∷ v) (omega arith) in
    (bit b + 2 * low, omega (arith, bit-le b, lt, pow-suc 2 n), grind (arith, eq, pow-suc 2 n))

length-expand : (v : BitVector) (n : ℕ) → length v ≤ n → length (binary_expand v n) ≡ n
unfolding binary_expand
length-expand v n h = omega (
  arith,
  length-append v (replicate (n - length v) (back v)),
  length-replicate (n - length v) (back v),
)

-- A vector that is wide enough is not expanded.
pub expand_self : (v : BitVector) (n : ℕ) → n ≤ length v → binary_expand v n ≡ v
unfolding binary_expand
expand_self v n h = let e : n - length v ≡ 0 = omega arith in rw e (append-nil v)

drop-replicate : (k w : ℕ) (b : Bool) → drop k (replicate w b) ≡ replicate (w - k) b
drop-replicate zero w b = let e : w - 0 ≡ w = omega arith in rw e
drop-replicate (suc k) zero b = let e : 0 - suc k ≡ 0 = omega arith in rw e
drop-replicate (suc k) (suc w) b =
    let e : suc w - suc k ≡ w - k = omega arith in rw e (drop-replicate k w b)

take-min : (w : ℕ) (v : BitVector) → take (min (length v) w) v ≡ take w v
take-min w v = ground (arith, take_all (min (length v) w) v, take_all w v)

-- `binary_clip` keeps the low bits and fills up with zeroes.
pub clip_as_take :
    (v : BitVector) (w : ℕ) → binary_clip v w ≡ take w v ++ replicate (w - length v) false
unfolding binary_clip
clip_as_take v w =
    let rounds : w - min (length v) w ≡ w - length v = omega arith in
    let filled : copied ≡ take w v ++ replicate (w - length v) false =
      ap₂ ◌++◌ (take-min w v) (rw (← rounds) (drop-replicate (min (length v) w) w false)) in
    let wide : length (take w v ++ replicate (w - length v) false) ≡ w = omega (
      arith,
      length-append (take w v) (replicate (w - length v) false),
      length-replicate (w - length v) false,
      length-take w v,
    ) in
    rw filled (expand_self _ w (omega arith))
  where
    copied : BitVector
    copied = take (min (length v) w) v ++ drop (min (length v) w) (replicate w false)

pub length-clip : (v : BitVector) (w : ℕ) → length (binary_clip v w) ≡ w
length-clip v w = omega (
  arith,
  ap length (clip_as_take v w),
  length-append (take w v) (replicate (w - length v) false),
  length-replicate (w - length v) false,
  length-take w v,
)

pub value-clip : (v : BitVector) (w : ℕ) → value (binary_clip v w) ≡ value v % 2 ^ w
value-clip v w = omega (
  arith,
  ap value (clip_as_take v w),
  ap value (clip_as_take v w) ∙ value-append (take w v) (replicate (w - length v) false),
  ap (λ t. 2 ^ length (take w v) * t) (value-replicate-false (w - length v)),
  value-take w v,
)

pub clip_self : (v : BitVector) (w : ℕ) → length v ≡ w → binary_clip v w ≡ v
clip_self v w e =
    value_injective (binary_clip v w) v (length-clip v w ∙ sym e)
      (value-clip v w ∙ mod-eq_of_lt (subst (λ k. value v < 2 ^ k) e (value-lt v)))

-- `==` of two vectors decides equality.
pub vector_eq_iff : (u v : BitVector) → (vector_eq u v ≡ true) ↔ (u ≡ v)
unfolding vector_eq
vector_eq_iff [] [] = (λ _. refl, λ _. refl)
vector_eq_iff [] (y ∷ v) = (λ h. cc, λ h. cc)
vector_eq_iff (x ∷ u) [] = (λ h. cc, λ h. cc)
vector_eq_iff (x ∷ u) (y ∷ v) = ground (arith, vector_eq_iff u v)

-- The answers of `differ`.
pub differ_opposite : (x y : Bool) → differ x y ≡ true → x ≡ not y
unfolding differ
differ_opposite x y h = ground arith

pub differ_same : (x y : Bool) → differ x y ≡ false → x ≡ y
unfolding differ
differ_same x y h = ground arith
