-- ===== src/Arch/Fields.antt =====
-- Bit fields of an instruction of new/src/arch/ops.cpp: reading one by a mask and a shift, and
-- adding one by a shift and `|`.
use wudoovm.Common.{ℕ, ◌+◌, ◌-◌, ◌*◌, ◌/◌, ◌%◌, ◌^◌, ◌<◌, ◌≡◌, ap, ap₂, ◌∙◌, bit_and, bit_or, arith}
use wudoovm.Common.Words.{
  bit_or_parts, bit_or-zero, zero-bit_or, low_mask_bits, mask_bits, div_of_parts,
}
use native.Mathlib.Nat.{one-le-pow}

-- A field of `w` bits from bit `k`.
pub read_field : (k w a : ℕ) → bit_and a (2 ^ k * (2 ^ w - 1)) / 2 ^ k ≡ a / 2 ^ k % 2 ^ w
read_field k w a =
    let masked = mask_bits k (2 ^ w - 1) a in
    let start : 2 ^ k * bit_and (a / 2 ^ k) (2 ^ w - 1)
        ≡ 0 + 2 ^ k * bit_and (a / 2 ^ k) (2 ^ w - 1) =
      omega arith in
    let exact : 2 ^ k * bit_and (a / 2 ^ k) (2 ^ w - 1) / 2 ^ k ≡ bit_and (a / 2 ^ k) (2 ^ w - 1) =
      ap (λ t. t / 2 ^ k) start
      ∙ div_of_parts (2 ^ k) 0 (bit_and (a / 2 ^ k) (2 ^ w - 1)) (omega (arith, one-le-pow k 2)) in
    ap (λ t. t / 2 ^ k) masked ∙ exact ∙ low_mask_bits w (a / 2 ^ k)

-- The new field meets the part of the old number above its lowest bit.
pub or_inside :
    (k l m x : ℕ) → l < 2 ^ k → bit_or (l + 2 ^ k * m) (x * 2 ^ k) ≡ l + 2 ^ k * bit_or m x
or_inside k l m x h =
    let parts = (bit_or_parts k l m 0 x h (omega (arith, one-le-pow k 2))).1 in
    let shifted : x * 2 ^ k ≡ 0 + 2 ^ k * x = omega arith in
    ap (bit_or (l + 2 ^ k * m)) shifted ∙ parts ∙ ap (λ t. t + 2 ^ k * bit_or m x) (bit_or-zero l)

pub or_above : (k r q : ℕ) → r < 2 ^ k → bit_or r (q * 2 ^ k) ≡ r + 2 ^ k * q
or_above k r q h =
    let whole : r ≡ r + 2 ^ k * 0 = omega arith in
    ap (λ t. bit_or t (q * 2 ^ k)) whole
    ∙ or_inside k r 0 q h
    ∙ ap (λ t. r + 2 ^ k * t) (zero-bit_or q)

pub or_below : (w x h : ℕ) → x < 2 ^ w → bit_or (2 ^ w * h) x ≡ x + 2 ^ w * h
or_below w x h fits =
    let parts = bit_or_parts w 0 h x 0 (omega (arith, one-le-pow w 2)) fits in
    let whole : x ≡ x + 2 ^ w * 0 = omega arith in
    let high : 2 ^ w * h ≡ 0 + 2 ^ w * h = omega arith in
    ap₂ bit_or high whole ∙ parts.1 ∙ ap₂ (λ s t. s + 2 ^ w * t) (zero-bit_or x) (bit_or-zero h)
