-- ===== src/Bits/Shift/Left.antt =====
-- `binary_shl` of src/types/bits.cpp against its description by `take` and `drop`. Its indices
-- are differences of `size_type` that may wrap, so that widths are bounded by 2 ^ 63.
use wudoovm.Common.{
  ℕ, zero, suc, ◌+◌, ◌-◌, ◌^◌, ◌≤◌, ◌<◌, ◌≡◌, refl, sym, ap₂, subst, ◌∙◌, false, ◌&&◌, ◌++◌, arith,
  length, get_or, set, take, drop, replicate, length-set, length-take, length-drop, length-append,
  length-replicate, get_or-set, get_or_ext, get_or-take, get_or-drop, get_or-append,
  get_or-replicate, ltb, leb, ◌==◌, if◌then◌else◌,
}
use wudoovm.Bits.Vector.{BitVector}
use wudoovm.Bits.Shift.{sub_size, Shifted, shl_round, shl_loop, binary_shl}

-- The index that is set, and the index whose value is moved, if it is in range.
module _ (l n i : ℕ) (lt : i < l) (fits : l ≤ 2 ^ 63) where
  to_set : sub_size (sub_size l i) 1 ≡ l - 1 - i
  unfolding sub_size
  to_set = omega arith

  of_value : n + i < l → sub_size (sub_size (sub_size l n) i) 1 ≡ l - 1 - i - n
  unfolding sub_size
  of_value h = omega arith

  of_value_wraps : n < l → l ≤ n + i → l ≤ sub_size (sub_size (sub_size l n) i) 1
  unfolding sub_size
  of_value_wraps h k = omega arith

  in_shifted : i < n → n < 2 ^ 64 → sub_size (sub_size n i) 1 ≡ n - 1 - i
  unfolding sub_size
  in_shifted h k = omega arith

  in_shifted_wraps : n ≤ i → n ≤ sub_size (sub_size n i) 1
  unfolding sub_size
  in_shifted_wraps h = omega arith

-- The round with its indices worked out.
abbrev pub plain_round : ℕ → ℕ → Shifted → Shifted
plain_round n i (shifted, v) =
    let l = length v in
    (
      (if ltb i n then set shifted (n - 1 - i) (get_or v (l - 1 - i) false) else shifted),
      (if ltb (n + i) l
          then set (set v (l - 1 - i) (get_or v (l - 1 - i - n) false)) (l - 1 - i - n) false
          else set v (l - 1 - i) false),
    )

pub shl_round_plain :
    (n i : ℕ) (s : Shifted)
    → i < length s.1
    → n < length s.1
    → length s.1 ≤ 2 ^ 63
    → shl_round n i s ≡ plain_round n i s
unfolding shl_round
shl_round_plain n i (shifted, v) lt inside fits =
    let l = length v in
    ground (
      arith,
      to_set l n i lt fits,
      of_value l n i lt fits,
      of_value_wraps l n i lt fits inside,
      in_shifted l n i lt fits,
      in_shifted_wraps l n i lt fits,
    )

-- One round, index by index.
plain_round-get_or :
    (n i : ℕ) (s : Shifted) (j : ℕ)
    → i < length s.1
    → 0 < n
    → get_or (plain_round n i s).1 j false ≡ (
        if ltb (n + i) (length s.1) && j == length s.1 - 1 - i - n
        then false
        else if j == length s.1 - 1 - i
        then (if ltb (n + i) (length s.1) then get_or s.1 (length s.1 - 1 - i - n) false else false)
        else get_or s.1 j false)
plain_round-get_or n i (shifted, v) j lt pos =
    let to = length v - 1 - i in
    let bit = get_or v (to - n) false in
    ground (
      arith,
      get_or-set v to bit j false,
      get_or-set (set v to bit) (to - n) false j false,
      get_or-set v to false j false,
      length-set v to bit,
    )

plain_round-get_or_shifted :
    (n i : ℕ) (s : Shifted) (j : ℕ)
    → length s.0 ≡ n
    → get_or (plain_round n i s).0 j false ≡ (
        if ltb i n && j == n - 1 - i
        then get_or s.1 (length s.1 - 1 - i) false
        else get_or s.0 j false)
plain_round-get_or_shifted n i (shifted, v) j e =
    ground (arith, get_or-set shifted (n - 1 - i) (get_or v (length v - 1 - i) false) j false)

pub plain_round-length :
    (n i : ℕ) (s : Shifted)
    → (length (plain_round n i s).0 ≡ length s.0) × (length (plain_round n i s).1 ≡ length s.1)
plain_round-length n i (shifted, v) =
    let to = length v - 1 - i in
    let bit = get_or v (to - n) false in
    ground (
      arith,
      length-set shifted (n - 1 - i) (get_or v to false),
      length-set (set v to bit) (to - n) false,
      length-set v to bit,
      length-set v to false,
    )

-- The state before round `i`, for an original vector `o` and a shift by `n`.
record ShlState (n : ℕ) (o : BitVector) (i : ℕ) (s : Shifted) : Type 0 where
  shifted_width : length s.0 ≡ n
  width : length s.1 ≡ length o
  shifted_out : (j : ℕ) → n ≤ j + i → j < n → get_or s.0 j false ≡ get_or o (length o - n + j) false
  moved :
      (j : ℕ)
      → length o ≤ j + i
      → n ≤ j
      → j < length o
      → get_or s.1 j false ≡ get_or o (j - n) false
  filled : (j : ℕ) → length o ≤ j + i → j < n → get_or s.1 j false ≡ false
  kept : (j : ℕ) → j + i < length o → length o ≤ j + n → get_or s.1 j false ≡ get_or o j false
  vacated :
      (j : ℕ)
      → j + i < length o
      → j + n < length o
      → length o ≤ j + n + i
      → get_or s.1 j false ≡ false
  ahead : (j : ℕ) → j + n + i < length o → get_or s.1 j false ≡ get_or o j false

module _ (n : ℕ) (o : BitVector) (pos : 0 < n) (inside : n < length o)
    (fits : length o ≤ 2 ^ 63) where
  plain_round-ShlState :
      (i : ℕ) (s : Shifted)
      → i < length o
      → ShlState n o i s
      → ShlState n o (i + 1) (plain_round n i s)
  plain_round-ShlState i s lt inv =
      let index = plain_round-get_or n i s in
      record {
        shifted_width = (plain_round-length n i s).0 ∙ inv.shifted_width;
        width = (plain_round-length n i s).1 ∙ inv.width;
        shifted_out = λ j a b. ground (
          arith,
          plain_round-get_or_shifted n i s j inv.shifted_width,
          inv.shifted_out j,
          inv.kept (length o - 1 - i),
          inv.width,
        );
        moved = λ j a b c. ground (
          arith,
          plain_round-get_or n i s j,
          inv.moved j,
          inv.ahead (length o - 1 - i - n),
          inv.width,
        );
        filled = λ j a b. ground (arith, plain_round-get_or n i s j, inv.filled j, inv.width);
        kept = λ j a b. ground (arith, plain_round-get_or n i s j, inv.kept j, inv.width);
        vacated = λ j a b c. ground (arith, plain_round-get_or n i s j, inv.vacated j, inv.width);
        ahead = λ j a. ground (arith, plain_round-get_or n i s j, inv.ahead j, inv.width);
      }

  loop-ShlState :
      (left i : ℕ) (s : Shifted)
      → i + left ≡ length o
      → ShlState n o i s
      → ShlState n o (length o) (shl_loop n left i s)
  unfolding shl_loop
  loop-ShlState zero i s e inv = subst (λ k. ShlState n o k s) (omega arith) inv
  loop-ShlState (suc left) i s e inv =
      let w = inv.width in
      loop-ShlState left (i + 1) (shl_round n i s) (omega arith) (
        subst (ShlState n o (i + 1))
          (sym (shl_round_plain n i s (omega arith) (omega arith) (omega arith)))
          (plain_round-ShlState i s (omega arith) inv))

  start-ShlState : ShlState n o 0 (replicate n false, o)
  start-ShlState = record {
    shifted_width = length-replicate n false;
    width = refl;
    shifted_out = λ j a b. absurd (omega arith);
    moved = λ j a b c. absurd (omega arith);
    filled = λ j a b. absurd (omega arith);
    kept = λ j a b. refl;
    vacated = λ j a b c. absurd (omega arith);
    ahead = λ j a. refl;
  }

  -- Shifting left by 0 < n < width puts n zeroes below the bits that remain, and gives back the n
  -- highest bits.
  pub shl_inside :
      binary_shl o n ≡ (drop (length o - n) o, replicate n false ++ take (length o - n) o)
  unfolding binary_shl
  shl_inside =
      let wide : leb (length o) n ≡ false = ground arith in
      let inv = loop-ShlState (length o) 0 (replicate n false, o) (omega arith) start-ShlState in
      let result = shl_loop n (length o) 0 (replicate n false, o) in
      rw wide (
        ap₂ (λ (x y : BitVector). let r : Shifted = (x, y) in r)
          (get_or_ext false result.0 (drop (length o - n) o)
            (omega (arith, inv.shifted_width, length-drop (length o - n) o))
            (λ j h.
              ground (
                arith,
                inv.shifted_width,
                inv.shifted_out j,
                get_or-drop (length o - n) o j false,
              )))
          (get_or_ext false result.1 (replicate n false ++ take (length o - n) o)
            (omega (
              arith,
              inv.width,
              length-append (replicate n false) (take (length o - n) o),
              length-take (length o - n) o,
              length-replicate n false,
            ))
            (λ j h. ground (
              arith,
              inv.width,
              inv.moved j,
              inv.filled j,
              get_or-append (replicate n false) (take (length o - n) o) j false,
              get_or-take (length o - n) o (j - n) false,
              length-replicate n false,
              get_or-replicate n false j,
            ))))
