-- ===== src/Bits/Shift/Edges.antt =====
-- `binary_shl` of src/types/bits.cpp for the shifts that its main loop is not meant for: by the
-- width or more, and by zero.
use wudoovm.Common.{
  ℕ, zero, suc, ◌+◌, ◌-◌, ◌^◌, ◌≤◌, ◌<◌, ◌≡◌, refl, sym, ap₂, ◌∙◌, true, false, [], ◌∷◌, ◌++◌,
  arith, length, get_or, set, replicate, length-set, length-append, length-replicate, get_or-set,
  get_or_ext, get_or-append, get_or-replicate, leb, ◌==◌, if◌then◌else◌,
}
use wudoovm.Bits.Vector.{BitVector, binary_fill_with_zeroes}
use wudoovm.Bits.Shift.{sub_size, Shifted, shl_loop, shl_copy, binary_shl}
use wudoovm.Bits.Shift.Right.{fill_as_replicate}
use wudoovm.Bits.Shift.Left.{plain_round, shl_round_plain, plain_round-length}

copy_index : (l i : ℕ) → i < l → l < 2 ^ 64 → sub_size (sub_size l 1) i ≡ l - 1 - i
unfolding sub_size
copy_index l i h k = omega arith

-- The copy loop writes the highest bits first.
copy_loop :
    (left i : ℕ) (o shifted : BitVector)
    → i + left ≡ length o
    → length o ≤ length shifted
    → length shifted < 2 ^ 64
    → ((j : ℕ)
        → length shifted ≤ j + i
        → j < length shifted
        → get_or shifted j false ≡ get_or o (j + length o - length shifted) false)
    → ((j : ℕ) → j + i < length shifted → get_or shifted j false ≡ false)
    → let r = shl_copy left i o shifted in
      (length r ≡ length shifted)
      × ((j : ℕ)
          → length shifted ≤ j + length o
          → j < length shifted
          → get_or r j false ≡ get_or o (j + length o - length shifted) false)
      × ((j : ℕ) → j + length o < length shifted → get_or r j false ≡ false)
unfolding shl_copy
copy_loop zero i o shifted e fits bound copied blank =
    (refl, λ j a b. copied j (omega arith) b, λ j a. blank j (omega arith))
copy_loop (suc left) i o shifted e fits bound copied blank =
    let bit = get_or o (length o - 1 - i) false in
    let to = length shifted - 1 - i in
    let width = length-set shifted to bit in
    let (l, inside, outside) =
      copy_loop left (i + 1) o (set shifted to bit) (omega arith) (omega (arith, width))
        (omega (arith, width))
        (λ j a b. ground (arith, width, copied j, get_or-set shifted to bit j false))
        (λ j a. ground (arith, width, blank j, get_or-set shifted to bit j false)) in
    rw
      (
        copy_index (length shifted) i (omega arith) bound,
        copy_index (length o) i (omega arith) (omega arith),
      )
      (l ∙ width, λ j a b. ground (arith, width, inside j), λ j a. ground (arith, width, outside j))

-- Shifting left by the width or more clears the vector, and gives all of its bits back above
-- zeroes.
pub shl_outside :
    (n : ℕ) (o : BitVector)
    → length o ≤ n
    → n < 2 ^ 64
    → binary_shl o n ≡ (replicate (n - length o) false ++ o, replicate (length o) false)
unfolding binary_shl
shl_outside n o le bound =
    let wide : leb (length o) n ≡ true = ground arith in
    let start = length-replicate n false in
    let (l, inside, outside) =
      copy_loop (length o) 0 o (replicate n false) (omega arith) (omega (arith, start))
        (omega (arith, start)) (λ j a b. absurd (omega arith))
        (λ j a. get_or-replicate n false j) in
    rw wide (
      ap₂ (λ (x y : BitVector). let r : Shifted = (x, y) in r)
        (get_or_ext false (shl_copy (length o) 0 o (replicate n false))
          (replicate (n - length o) false ++ o)
          (omega (
            arith,
            l,
            start,
            length-append (replicate (n - length o) false) o,
            length-replicate (n - length o) false,
          ))
          (λ j h. ground (
            arith,
            l,
            start,
            inside j,
            outside j,
            get_or-append (replicate (n - length o) false) o j false,
            length-replicate (n - length o) false,
            get_or-replicate (n - length o) false j,
          )))
        (fill_as_replicate o))

-- One round of a shift by zero.
zero_round :
    (i : ℕ) (s : Shifted) (j : ℕ)
    → i < length s.1
    → s.0 ≡ []
    → ((plain_round 0 i s).0 ≡ [])
      × (get_or (plain_round 0 i s).1 j false
          ≡ (if j == length s.1 - 1 - i then false else get_or s.1 j false))
zero_round i (shifted, v) j lt e =
    let to = length v - 1 - i in
    let bit = get_or v (to - 0) false in
    (
      ground arith,
      ground (
        arith,
        get_or-set v to bit j false,
        get_or-set (set v to bit) (to - 0) false j false,
        get_or-set v to false j false,
        length-set v to bit,
      ),
    )

zero_loop :
    (left i : ℕ) (o : BitVector) (s : Shifted)
    → i + left ≡ length o
    → length o ≤ 2 ^ 63
    → s.0 ≡ []
    → length s.1 ≡ length o
    → ((j : ℕ) → length o ≤ j + i → j < length o → get_or s.1 j false ≡ false)
    → let r = shl_loop 0 left i s in
      (r.0 ≡ []) × (length r.1 ≡ length o) × ((j : ℕ) → j < length o → get_or r.1 j false ≡ false)
unfolding shl_loop
zero_loop zero i o s e fits out width done = (out, width, λ j h. done j (omega arith) h)
zero_loop (suc left) i o s e fits out width done =
    rw (shl_round_plain 0 i s (omega arith) (omega arith) (omega arith), shl_loop)
      (zero_loop left (i + 1) o (plain_round 0 i s) (omega arith) fits
        (zero_round i s 0 (omega arith) out).0 ((plain_round-length 0 i s).1 ∙ width)
        (λ j a b. ground (arith, done j, (zero_round i s j (omega arith) out).1)))

-- A shift left by zero is no identity: each round clears the bit that it has just kept, so that
-- the whole vector is cleared.
pub shl_zero :
    (o : BitVector) → length o ≤ 2 ^ 63 → binary_shl o 0 ≡ ([], replicate (length o) false)
unfolding binary_shl binary_fill_with_zeroes
shl_zero [] fits = ap₂ (λ (x y : BitVector). let r : Shifted = (x, y) in r) nothing refl
  where
    nothing : shl_copy 0 0 [] [] ≡ []
    nothing = unfold shl_copy in refl
shl_zero (b ∷ o) fits =
    let v = b ∷ o in
    let (out, width, done) =
      zero_loop (length v) 0 v ([], v) (omega arith) fits refl refl
        (λ j a c. absurd (omega arith)) in
    rw compare_zero (
      ap₂ (λ (x y : BitVector). let r : Shifted = (x, y) in r) out
        (get_or_ext false _ (replicate (length v) false)
          (omega (arith, width, length-replicate (length v) false))
          (λ j h. done j (omega (arith, width)) ∙ sym (get_or-replicate (length v) false j))))
  where
    compare_zero : leb (suc (length o)) 0 ≡ false
    compare_zero = ground arith
