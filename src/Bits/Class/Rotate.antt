-- ===== src/Bits/Class/Rotate.antt =====
-- `rol` and `ror` of src/types/bits.cpp as rotations.
use wudoovm.Common.{
  ℕ, zero, suc, ◌+◌, ◌-◌, ◌^◌, ◌≤◌, ◌<◌, ◌≡◌, refl, ap, ap₂, ◌∙◌, false, not, ◌&&◌, lt→ltb, ◌++◌,
  arith, length, get_or, set, take, drop, replicate, length-set, length-append, length-take,
  length-drop, length-replicate, get_or-set, get_or_ext, get_or-append, take-append_length,
  drop-append_length, take-append-drop, ltb, if◌then◌else◌,
}
use wudoovm.Common.Outcome.{ok}
use wudoovm.Bits.Vector.{BitVector}
use wudoovm.Bits.Shift.{sub_size}
use wudoovm.Bits.Shift.Right.{shr_inside}
use wudoovm.Bits.Shift.Left.{shl_inside}
use wudoovm.Bits.Class.{Bits, of_vector, shl, shr, rol_loop, ror_loop, rol, ror}

-- The write loop of `rol` puts the shifted bits at the bottom.
rol_loop_writes :
    (left i : ℕ) (shifted : BitVector) (b : Bits)
    → i + left ≡ length shifted
    → length shifted ≤ length b.underlying_array
    → (v : BitVector) × (rol_loop left i shifted b ≡ (of_vector v, ok tt))
      × (length v ≡ length b.underlying_array)
      × ((j : ℕ)
          → get_or v j false ≡ (
              if not (ltb j i) && ltb j (length shifted)
              then get_or shifted j false
              else get_or b.underlying_array j false))
unfolding rol_loop
rol_loop_writes zero i shifted b e fits = (b.underlying_array, refl, refl, λ j. ground arith)
rol_loop_writes (suc left) i shifted b e fits =
    let bit = get_or shifted i false in
    let width = length-set b.underlying_array i bit in
    let (v, run, l, index) =
      rol_loop_writes left (i + 1) shifted (of_vector (set b.underlying_array i bit)) (omega arith)
        (omega (arith, width)) in
    (
      v,
      rw (lt→ltb i (length b.underlying_array) (omega arith)) run,
      l ∙ width,
      λ j. ground (arith, index j, get_or-set b.underlying_array i bit j false),
    )

-- The write loop of `ror` puts the shifted bits at the top.
ror_loop_writes :
    (left i : ℕ) (shifted : BitVector) (b : Bits)
    → i + left ≡ length shifted
    → length shifted ≤ length b.underlying_array
    → length b.underlying_array < 2 ^ 64
    → let l = length b.underlying_array in
      (v : BitVector) × (ror_loop left i (length shifted) shifted b ≡ (of_vector v, ok tt))
      × (length v ≡ l)
      × ((j : ℕ)
          → j < l
          → get_or v j false ≡ (
              if ltb (j + i) l && not (ltb (j + length shifted) l)
              then get_or shifted (j + length shifted - l) false
              else get_or b.underlying_array j false))
unfolding ror_loop
ror_loop_writes zero i shifted b e fits bound =
    (b.underlying_array, refl, refl, λ j h. ground arith)
ror_loop_writes (suc left) i shifted b e fits bound =
    let l = length b.underlying_array in
    let to = l - 1 - i in
    let bit = get_or shifted (length shifted - 1 - i) false in
    let width = length-set b.underlying_array to bit in
    let (v, run, same, index) =
      ror_loop_writes left (i + 1) shifted (of_vector (set b.underlying_array to bit)) (omega arith)
        (omega (arith, width)) (omega (arith, width)) in
    rw
      (
        top_index l i (omega arith) bound,
        top_index (length shifted) i (omega arith) (omega arith),
        lt→ltb to l (omega arith),
      )
      (
        v,
        run,
        same ∙ width,
        λ j h. ground (arith, index j, width, get_or-set b.underlying_array to bit j false),
      )
  where
    top_index : (a k : ℕ) → k < a → a < 2 ^ 64 → sub_size (sub_size a 1) k ≡ a - 1 - k
    top_index a k h g = unfold sub_size in omega arith

-- The pieces that a rotation by `n` exchanges.
abbrev pub rotated_left : ℕ → BitVector → BitVector
rotated_left n v = drop (length v - n) v ++ take (length v - n) v

abbrev pub rotated_right : ℕ → BitVector → BitVector
rotated_right n v = drop n v ++ take n v

module _ (n : ℕ) (v : BitVector) (pos : 0 < n) (inside : n < length v)
    (fits : length v ≤ 2 ^ 63) where
  length-rotated_left : length (rotated_left n v) ≡ length v
  length-rotated_left = omega (
    arith,
    length-append (drop (length v - n) v) (take (length v - n) v),
    length-drop (length v - n) v,
    length-take (length v - n) v,
  )

  length-rotated_right : length (rotated_right n v) ≡ length v
  length-rotated_right =
      omega (arith, length-append (drop n v) (take n v), length-drop n v, length-take n v)

  -- For 0 < n < width, of at most 2 ^ 63, `rol` moves the n highest bits to the bottom, without an exception.
  pub rol_rotates : rol (of_vector v) n ≡ (of_vector (rotated_left n v), ok tt)
  unfolding rol shl
  rol_rotates =
      let top = drop (length v - n) v in
      let low = take (length v - n) v in
      let moved = replicate n false ++ low in
      let widths : (length top ≡ n) × (length moved ≡ length v) = (
        omega (arith, length-drop (length v - n) v),
        omega (
          arith,
          length-append (replicate n false) low,
          length-replicate n false,
          length-take (length v - n) v,
        ),
      ) in
      let (r, run, l, index) =
        rol_loop_writes (length top) 0 top (of_vector moved) (omega arith)
          (omega (arith, widths)) in
      let result : r ≡ rotated_left n v =
        get_or_ext false r (rotated_left n v) (omega (arith, l, widths, length-rotated_left))
          (λ j h. ground (
            arith,
            index j,
            widths,
            get_or-append (replicate n false) low j false,
            get_or-append top low j false,
            length-replicate n false,
          )) in
      rw (shl_inside n v pos inside fits) (run ∙ ap (λ x. (of_vector x, ok tt)) result)

  -- For 0 < n < width, `ror` moves the n lowest bits to the top, without an exception.
  pub ror_rotates : ror (of_vector v) n ≡ (of_vector (rotated_right n v), ok tt)
  unfolding ror shr
  ror_rotates =
      let high = drop n v in
      let low = take n v in
      let moved = high ++ replicate n false in
      let widths : (length low ≡ n) × (length high ≡ length v - n) × (length moved ≡ length v) = (
        omega (arith, length-take n v),
        length-drop n v,
        omega (
          arith,
          length-append high (replicate n false),
          length-replicate n false,
          length-drop n v,
        ),
      ) in
      let (r, run, l, index) =
        ror_loop_writes (length low) 0 low (of_vector moved) (omega arith) (omega (arith, widths))
          (omega (arith, widths)) in
      let result : r ≡ rotated_right n v =
        get_or_ext false r (rotated_right n v) (omega (arith, l, widths, length-rotated_right))
          (λ j h. ground (
            arith,
            index j,
            l,
            widths,
            get_or-append high (replicate n false) j false,
            get_or-append high low j false,
          )) in
      rw (shr_inside n false v pos inside) (run ∙ ap (λ x. (of_vector x, ok tt)) result)

rotated_back : (n : ℕ) (v : BitVector) → n ≤ length v → rotated_right n (rotated_left n v) ≡ v
rotated_back n v h =
    let top = drop (length v - n) v in
    let low = take (length v - n) v in
    let width : n ≡ length top = omega (arith, length-drop (length v - n) v) in
    ap (λ k. drop k (top ++ low) ++ take k (top ++ low)) width
    ∙ ap₂ ◌++◌ (drop-append_length top low) (take-append_length top low)
    ∙ take-append-drop (length v - n) v

-- For 0 < n < width, of at most 2 ^ 63, rotating left throws nothing, and rotating right
-- afterwards gives the vector back.
pub ror-rol :
    (n : ℕ) (v : BitVector)
    → 0 < n
    → n < length v
    → length v ≤ 2 ^ 63
    → ((rol (of_vector v) n).1 ≡ ok tt) × (ror (rol (of_vector v) n).0 n ≡ (of_vector v, ok tt))
ror-rol n v pos inside fits =
    let width = length-rotated_left n v pos inside fits in
    rw (rol_rotates n v pos inside fits) (
      refl,
      ror_rotates n (rotated_left n v) pos (omega (arith, width)) (omega (arith, width))
          ∙ ap (λ x. (of_vector x, ok tt)) (rotated_back n v (omega arith)),
    )
