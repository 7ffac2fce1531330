-- ===== src/Bits/Class/Contents.antt =====
-- The constructors, `set`, `clear`, `operator==` and the bitwise operators of the class
-- `viua::types::Bits` in src/types/bits.cpp.
use mathlib.Core.List.{append_assoc}
use wudoovm.Common.{
  ℕ, zero, suc, ◌+◌, ◌*◌, ◌^◌, min, ◌≤◌, ◌<◌, ◌≡◌, ◌↔◌, refl, sym, ap, ◌∙◌, Bool, true, false, not,
  ◌&&◌, List, [], ◌∷◌, ◌++◌, bit_and, arith, length, get_or, set, replicate, length-set, get_or-set,
  length-append, length-replicate, get_or-replicate, get_or_ext, ltb, ◌==◌, ==_iff, if◌then◌else◌,
}
use wudoovm.Bits.Vector.{BitVector}
use wudoovm.Bits.Value.{value, value-append, vector_eq_iff}
use wudoovm.Bits.Class.{
  Bits, of_vector, size, clear_loop, clear, equals, logic_loop, perform_bitwise_logic, write_byte,
  write_bytes, of_bytes,
}
use wudoovm.Bits.Class.Arithmetic.{number}

clear_loop_index :
    (left i : ℕ) (b : Bits)
    → i + left ≤ size b
    → (size (clear_loop left i b) ≡ size b)
      × ((j : ℕ)
          → get_or (clear_loop left i b).underlying_array j false ≡ (
              if not (ltb j i) && ltb j (i + left)
              then false
              else get_or b.underlying_array j false))
unfolding clear_loop
clear_loop_index zero i b h = (refl, λ j. ground arith)
clear_loop_index (suc left) i b h =
    let b' = of_vector (set b.underlying_array i false) in
    let width = length-set b.underlying_array i false in
    let (w, index) = clear_loop_index left (i + 1) b' (omega (arith, width)) in
    (w ∙ width, λ j. ground (arith, index j, get_or-set b.underlying_array i false j false))

-- `clear` keeps the width and disables every bit.
clear-zeroes : (b : Bits) → clear b ≡ of_vector (replicate (size b) false)
unfolding clear
clear-zeroes b =
    let (w, index) = clear_loop_index (size b) 0 b (omega arith) in
    ap of_vector (
      get_or_ext false (clear_loop (size b) 0 b).underlying_array (replicate (size b) false)
        (omega (arith, w, length-replicate (size b) false))
        (λ j h. ground (arith, w, index j, get_or-replicate (size b) false j)))

logic_loop_index :
    (f : Bool → Bool → Bool) (left i : ℕ) (lhs rhs result : BitVector)
    → i + left ≤ length result
    → (length (logic_loop f left i lhs rhs result) ≡ length result)
      × ((j : ℕ)
          → get_or (logic_loop f left i lhs rhs result) j false ≡ (
              if not (ltb j i) && ltb j (i + left)
              then f (get_or lhs j false) (get_or rhs j false)
              else get_or result j false))
unfolding logic_loop
logic_loop_index f zero i lhs rhs result h = (refl, λ j. ground arith)
logic_loop_index f (suc left) i lhs rhs result h =
    let x = f (get_or lhs i false) (get_or rhs i false) in
    let width = length-set result i x in
    let (w, index) =
      logic_loop_index f left (i + 1) lhs rhs (set result i x) (omega (arith, width)) in
    (w ∙ width, λ j. ground (arith, index j, get_or-set result i x j false))

-- A bitwise operation keeps the width of its left operand. It combines the bits that both
-- operands have, and clears every bit of the left operand beyond the width of the right one.
pub logic-bit :
    (f : Bool → Bool → Bool) (lhs rhs : Bits)
    → (size (perform_bitwise_logic f lhs rhs) ≡ size lhs)
      × ((j : ℕ)
          → get_or (perform_bitwise_logic f lhs rhs).underlying_array j false ≡ (
              if ltb j (size lhs) && ltb j (size rhs)
              then f (get_or lhs.underlying_array j false) (get_or rhs.underlying_array j false)
              else false))
unfolding perform_bitwise_logic
logic-bit f lhs rhs =
    let start = length-replicate (size lhs) false in
    let (w, index) =
      logic_loop_index f (min (size lhs) (size rhs)) 0 lhs.underlying_array rhs.underlying_array
        (replicate (size lhs) false) (omega (arith, start)) in
    (w ∙ start, λ j. ground (arith, index j, get_or-replicate (size lhs) false j))

-- `operator==` decides equality.
pub equals_iff : (a b : Bits) → (equals a b ≡ true) ↔ (a ≡ b)
unfolding equals
equals_iff a b =
    let (sound, complete) = vector_eq_iff a.underlying_array b.underlying_array in
    (
      λ h. ap of_vector (sound (ground arith)),
      λ e.
          let vectors : a.underlying_array ≡ b.underlying_array =
            ap (λ (x : Bits). x.underlying_array) e in
          let widths : size a ≡ size b = ap length vectors in ground (arith, complete vectors),
    )

-- Writing behind a prefix.
set_behind : (u w : BitVector) (x y : Bool) → set (u ++ (x ∷ w)) (length u) y ≡ (u ++ (y ∷ [])) ++ w
set_behind [] w x y = refl
set_behind (b ∷ u) w x y = ap (◌∷◌ b) (set_behind u w x y)

-- A test of every number below `n`.
passes : (ℕ → Bool) → ℕ → Bool
passes test zero = true
passes test (suc n) = if test n then passes test n else false

passes_entry : (test : ℕ → Bool) (n a : ℕ) → a < n → passes test n ≡ true → test a ≡ true
unfolding passes
passes_entry test zero a below all = absurd (omega arith)
passes_entry test (suc n) a below all = ground (arith, passes_entry test n a)

-- The bits of a byte from bit `i`, lowest first.
abbrev byte_bits : ℕ → ℕ → ℕ → BitVector
byte_bits zero i a = []
byte_bits (suc left) i a = not (bit_and a (2 ^ i) == 0) ∷ byte_bits left (i + 1) a

write_byte_bits :
    (left i base a : ℕ) (u w : BitVector)
    → base + i ≡ length u
    → write_byte left i base a (u ++ (replicate left false ++ w)) ≡ u ++ (byte_bits left i a ++ w)
unfolding write_byte
write_byte_bits zero i base a u w e = refl
write_byte_bits (suc left) i base a u w e =
    let x = not (bit_and a (2 ^ i) == 0) in
    rw (e, set_behind u (replicate left false ++ w) false x)
      (write_byte_bits left (i + 1) base a (u ++ (x ∷ [])) w
          (omega (arith, length-append u (x ∷ [])))
        ∙ append_assoc u (x ∷ []) (byte_bits left (i + 1) a ++ w))

byte_table : passes (λ a. value (byte_bits 8 0 a) == a) 256 ≡ true
unfolding passes
byte_table = refl

value-byte_bits : (a : ℕ) → a < 256 → value (byte_bits 8 0 a) ≡ a
value-byte_bits a h =
    (==_iff _ a).0 (passes_entry (λ x. value (byte_bits 8 0 x) == x) 256 a h byte_table)

-- The little-endian number that bytes stand for.
abbrev pub little_endian : List ℕ → ℕ
little_endian [] = 0
little_endian (a ∷ rest) = a + 256 * little_endian rest

abbrev pub IsBytes : List ℕ → Type 0
IsBytes [] = Unit {0}
IsBytes (a ∷ rest) = (a < 256) × IsBytes rest

abbrev all_bits : List ℕ → BitVector
all_bits [] = []
all_bits (a ∷ rest) = byte_bits 8 0 a ++ all_bits rest

write_bytes_bits :
    (k : ℕ) (bytes : List ℕ) (u : BitVector)
    → k * 8 ≡ length u
    → write_bytes k bytes (u ++ replicate (length bytes * 8) false) ≡ u ++ all_bits bytes
unfolding write_bytes
write_bytes_bits k [] u e = refl
write_bytes_bits k (a ∷ rest) u e =
    let zeroes = replicate (length rest * 8) false in
    let bytes : suc (length rest) * 8
        ≡ suc (suc (suc (suc (suc (suc (suc (suc (length rest * 8)))))))) =
      omega arith in
    let start : u ++ replicate (suc (length rest) * 8) false ≡ u ++ (replicate 8 false ++ zeroes) =
      ap (λ n. u ++ replicate n false) bytes in
    let first = write_byte_bits 8 0 (k * 8) a u zeroes (omega (arith, e)) in
    let regroup = append_assoc u (byte_bits 8 0 a) zeroes in
    let wide : (k + 1) * 8 ≡ length (u ++ byte_bits 8 0 a) =
      omega (arith, e, length-append u (byte_bits 8 0 a)) in
    ap (λ v. write_bytes (k + 1) rest (write_byte 8 0 (k * 8) a v)) start
    ∙ ap (write_bytes (k + 1) rest) (first ∙ sym regroup)
    ∙ write_bytes_bits (k + 1) rest (u ++ byte_bits 8 0 a) wide
    ∙ append_assoc u (byte_bits 8 0 a) (all_bits rest)

all_bits-value :
    (bytes : List ℕ)
    → IsBytes bytes
    → (length (all_bits bytes) ≡ length bytes * 8) × (value (all_bits bytes) ≡ little_endian bytes)
all_bits-value [] h = (refl, refl)
all_bits-value (a ∷ rest) (h, hs) =
    let (w, v) = all_bits-value rest hs in
    (
      omega (arith, w),
      value-append (byte_bits 8 0 a) (all_bits rest) ∙ omega (arith, value-byte_bits a h, v),
    )

-- The constructor from bytes takes the first byte as the lowest eight bits, and so on.
pub of_bytes-number :
    (bytes : List ℕ)
    → IsBytes bytes
    → (size (of_bytes bytes) ≡ length bytes * 8) × (number (of_bytes bytes) ≡ little_endian bytes)
unfolding of_bytes
of_bytes-number bytes h =
    let (w, v) = all_bits-value bytes h in
    let bits = write_bytes_bits 0 bytes [] refl in (ap length bits ∙ w, ap value bits ∙ v)
