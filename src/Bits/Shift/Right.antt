-- ===== src/Bits/Shift/Right.antt =====
-- `binary_shr` of src/types/bits.cpp against its description by `take` and `drop`. The loop
-- works in place, so that its state is described index by index.
use wudoovm.Common.{
  get_or-set, not, ◌&&◌, ◌==◌, subst, ℕ, zero, suc, ◌+◌, ◌-◌, ◌≤◌, ◌<◌, ◌≡◌, refl, sym, ap, ap₂,
  ◌∙◌, Bool, true, false, [], ◌∷◌, ◌++◌, arith, length, get_or, set, take, drop, replicate,
  length-set, length-take, length-drop, length-append, length-replicate, get_or_ext, get_or-take,
  get_or-drop, get_or-append, get_or-replicate_lt, get_or-replicate, ltb, leb, if◌then◌else◌,
}
use wudoovm.Bits.Vector.{BitVector, binary_fill_with_zeroes}
use wudoovm.Bits.Shift.{Shifted, shr_round, shr_loop, shr_copy, binary_shr}

-- The state before round `i`, for an original vector `o` and a shift by `n`.
record ShrState (n : ℕ) (padding : Bool) (o : BitVector) (i : ℕ) (s : Shifted) : Type 0 where
  shifted_width : length s.0 ≡ n
  width : length s.1 ≡ length o
  shifted_out : (j : ℕ) → j < i → j < n → get_or s.0 j false ≡ get_or o j false
  moved : (j : ℕ) → j < i → j + n < length o → get_or s.1 j false ≡ get_or o (j + n) false
  padded : (j : ℕ) → j < i → length o ≤ j + n → get_or s.1 j false ≡ padding
  kept : (j : ℕ) → i ≤ j → j < n → get_or s.1 j false ≡ get_or o j false
  vacated : (j : ℕ) → i ≤ j → n ≤ j → j < n + i → j < length o → get_or s.1 j false ≡ padding
  ahead : (j : ℕ) → i ≤ j → n + i ≤ j → get_or s.1 j false ≡ get_or o j false

-- One round, index by index.
round-get_or :
    (n : ℕ) (padding : Bool) (i : ℕ) (s : Shifted) (j : ℕ)
    → i < length s.1
    → get_or (shr_round n padding i s).1 j false ≡ (
        if j == i + n && ltb j (length s.1) && not (n == 0)
        then padding
        else if j == i
        then (if ltb (i + n) (length s.1) && not (n == 0)
            then get_or s.1 (i + n) false
            else padding)
        else get_or s.1 j false)
unfolding shr_round
round-get_or n padding i (shifted, v) j lt = ground (
  arith,
  get_or-set v i (get_or v (i + n) false) j false,
  get_or-set (set v i (get_or v (i + n) false)) (i + n) padding j false,
  get_or-set v i padding j false,
  length-set v i (get_or v (i + n) false),
)

round-get_or_shifted :
    (n : ℕ) (padding : Bool) (i : ℕ) (s : Shifted) (j : ℕ)
    → length s.0 ≡ n
    → get_or (shr_round n padding i s).0 j false
      ≡ (if j == i && ltb i n then get_or s.1 i false else get_or s.0 j false)
unfolding shr_round
round-get_or_shifted n padding i (shifted, v) j e =
    ground (arith, get_or-set shifted i (get_or v i false) j false)

round-length :
    (n : ℕ) (padding : Bool) (i : ℕ) (s : Shifted)
    → (length (shr_round n padding i s).0 ≡ length s.0)
      × (length (shr_round n padding i s).1 ≡ length s.1)
unfolding shr_round
round-length n padding i (shifted, v) = ground (
  arith,
  length-set shifted i (get_or v i false),
  length-set (set v i (get_or v (i + n) false)) (i + n) padding,
  length-set v i (get_or v (i + n) false),
  length-set v i padding,
)

module _ (n : ℕ) (padding : Bool) (o : BitVector) (pos : 0 < n) where
  round-ShrState :
      (i : ℕ) (s : Shifted)
      → i < length o
      → ShrState n padding o i s
      → ShrState n padding o (i + 1) (shr_round n padding i s)
  round-ShrState i s lt inv = record {
    shifted_width = (round-length n padding i s).0 ∙ inv.shifted_width;
    width = (round-length n padding i s).1 ∙ inv.width;
    shifted_out = λ j a b. ground (
      arith,
      round-get_or_shifted n padding i s j inv.shifted_width,
      inv.shifted_out j,
      inv.kept i,
      inv.width,
    );
    moved = λ j a b.
        ground (arith, round-get_or n padding i s j, inv.moved j, inv.ahead (i + n), inv.width);
    padded = λ j a b. ground (arith, round-get_or n padding i s j, inv.padded j, inv.width);
    kept = λ j a b. ground (arith, round-get_or n padding i s j, inv.kept j, inv.width);
    vacated = λ j a b c d. ground (arith, round-get_or n padding i s j, inv.vacated j, inv.width);
    ahead = λ j a b. ground (arith, round-get_or n padding i s j, inv.ahead j, inv.width);
  }

  loop-ShrState :
      (left i : ℕ) (s : Shifted)
      → i + left ≡ length o
      → ShrState n padding o i s
      → ShrState n padding o (length o) (shr_loop n padding left i s)
  unfolding shr_loop
  loop-ShrState zero i s e inv = subst (λ k. ShrState n padding o k s) (omega arith) inv
  loop-ShrState (suc left) i s e inv =
      loop-ShrState left (i + 1) (shr_round n padding i s) (omega arith)
        (round-ShrState i s (omega arith) inv)

  start-ShrState : ShrState n padding o 0 (replicate n false, o)
  start-ShrState = record {
    shifted_width = length-replicate n false;
    width = refl;
    shifted_out = λ j a b. absurd (omega arith);
    moved = λ j a b. absurd (omega arith);
    padded = λ j a b. absurd (omega arith);
    kept = λ j a b. refl;
    vacated = λ j a b c d. absurd (omega arith);
    ahead = λ j a b. refl;
  }

  -- Shifting right by 0 < n < width drops the n lowest bits, fills up with the padding, and
  -- gives the dropped bits back.
  pub shr_inside :
      n < length o → binary_shr o n padding ≡ (take n o, drop n o ++ replicate n padding)
  unfolding binary_shr
  shr_inside lt =
      let wide : leb (length o) n ≡ false = ground arith in
      let inv = loop-ShrState (length o) 0 (replicate n false, o) (omega arith) start-ShrState in
      let result = shr_loop n padding (length o) 0 (replicate n false, o) in
      rw wide (
        ap₂ (λ (x y : BitVector). let r : Shifted = (x, y) in r)
          (get_or_ext false result.0 (take n o) (omega (arith, inv.shifted_width, length-take n o))
            (λ j h. ground (arith, inv.shifted_width, inv.shifted_out j, get_or-take n o j false)))
          (get_or_ext false result.1 (drop n o ++ replicate n padding)
            (omega (
              arith,
              inv.width,
              length-append (drop n o) (replicate n padding),
              length-drop n o,
              length-replicate n padding,
            ))
            (λ j h. ground (
              arith,
              inv.width,
              inv.moved j,
              inv.padded j,
              get_or-append (drop n o) (replicate n padding) j false,
              get_or-drop n o j false,
              length-drop n o,
              get_or-replicate_lt n padding (j - length (drop n o)) false,
            ))))

-- The case of a shift by the width or more: the copy loop.
copy_loop :
    (left i : ℕ) (o shifted : BitVector)
    → i + left ≡ length o
    → length o ≤ length shifted
    → ((j : ℕ) → j < i → get_or shifted j false ≡ get_or o j false)
    → (length (shr_copy left i o shifted) ≡ length shifted)
      × ((j : ℕ) → j < length o → get_or (shr_copy left i o shifted) j false ≡ get_or o j false)
      × ((j : ℕ)
          → length o ≤ j
          → get_or (shr_copy left i o shifted) j false ≡ get_or shifted j false)
unfolding shr_copy
copy_loop zero i o shifted e fits copied = (refl, λ j h. copied j (omega arith), λ j h. refl)
copy_loop (suc left) i o shifted e fits copied =
    let shifted' = set shifted i (get_or o i false) in
    let (l, inside, outside) =
      copy_loop left (i + 1) o shifted' (omega arith)
        (omega (arith, length-set shifted i (get_or o i false)))
        (λ j h. ground (arith, copied j, get_or-set shifted i (get_or o i false) j false)) in
    (
      l ∙ length-set shifted i (get_or o i false),
      inside,
      λ j h. outside j h ∙ ground (arith, get_or-set shifted i (get_or o i false) j false),
    )

pub fill_as_replicate : (o : BitVector) → binary_fill_with_zeroes o ≡ replicate (length o) false
unfolding binary_fill_with_zeroes
fill_as_replicate [] = refl
fill_as_replicate (b ∷ o) = ap (◌∷◌ false) (fill_as_replicate o)

-- Shifting right by the width or more clears the vector, whatever the padding is, and gives all
-- of its bits back.
pub shr_outside :
    (n : ℕ) (padding : Bool) (o : BitVector)
    → length o ≤ n
    → binary_shr o n padding ≡ (o ++ replicate (n - length o) false, replicate (length o) false)
unfolding binary_shr
shr_outside n padding o le =
    let wide : leb (length o) n ≡ true = ground arith in
    let (l, inside, outside) =
      copy_loop (length o) 0 o (replicate n false) (omega arith)
        (omega (arith, length-replicate n false)) (λ j h. absurd (omega arith)) in
    rw wide (
      ap₂ (λ (x y : BitVector). let r : Shifted = (x, y) in r)
        (get_or_ext false (shr_copy (length o) 0 o (replicate n false))
          (o ++ replicate (n - length o) false)
          (omega (
            arith,
            l,
            length-replicate n false,
            length-append o (replicate (n - length o) false),
            length-replicate (n - length o) false,
          ))
          (λ j h. ground (
            arith,
            inside j,
            outside j,
            get_or-append o (replicate (n - length o) false) j false,
            get_or-replicate n false j,
            get_or-replicate (n - length o) false (j - length o),
          )))
        (fill_as_replicate o))

-- The state before round `i` of a shift by zero.
zero_loop :
    (left i : ℕ) (padding : Bool) (o : BitVector) (s : Shifted)
    → i + left ≡ length o
    → s.0 ≡ []
    → length s.1 ≡ length o
    → ((j : ℕ) → j < i → get_or s.1 j false ≡ padding)
    → let r = shr_loop 0 padding left i s in
      (r.0 ≡ []) × (length r.1 ≡ length o) × ((j : ℕ) → j < length o → get_or r.1 j false ≡ padding)
unfolding shr_loop
zero_loop zero i padding o s e out width done = (out, width, λ j h. done j (omega arith))
zero_loop (suc left) i padding o s e out width done =
    let (l0, l1) = round-length 0 padding i s in
    zero_loop left (i + 1) padding o (shr_round 0 padding i s) (omega arith)
      (zero_round padding i s out) (l1 ∙ width)
      (λ j h. ground (arith, done j, round-get_or 0 padding i s j))
  where
    zero_round : (p : Bool) (k : ℕ) (t : Shifted) → t.0 ≡ [] → (shr_round 0 p k t).0 ≡ []
    zero_round p k (a, b) h = unfold shr_round in ground arith

-- A shift right by zero is no identity: each round overwrites the bit that it has just kept,
-- so that the whole vector is filled with the padding.
pub shr_zero :
    (padding : Bool) (o : BitVector) → binary_shr o 0 padding ≡ ([], replicate (length o) padding)
unfolding binary_shr binary_fill_with_zeroes
shr_zero padding [] = refl
shr_zero padding (b ∷ o) =
    let v = b ∷ o in
    let (out, width, done) =
      zero_loop (length v) 0 padding v ([], v) (omega arith) refl refl
        (λ j h. absurd (omega arith)) in
    rw compare_zero (
      ap₂ (λ (x y : BitVector). let r : Shifted = (x, y) in r) out
        (get_or_ext false _ (replicate (length v) padding)
          (omega (arith, width, length-replicate (length v) padding))
          (λ j h.
            done j (omega (arith, width))
            ∙ sym (get_or-replicate_lt (length v) padding j false (omega (arith, width))))))
  where
    compare_zero : leb (suc (length o)) 0 ≡ false
    compare_zero = ground arith
