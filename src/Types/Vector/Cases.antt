-- ===== src/Types/Vector/Cases.antt =====
-- What `insert`, `pop` and `at` of src/types/vector.cpp do on every index.
use wudoovm.Common.{
  ℕ, zero, suc, ◌+◌, ◌-◌, ◌≤◌, ◌<◌, ◌≡◌, refl, true, false, ◌⊎◌, inl, inr, some, List, [], ◌∷◌,
  ◌++◌, length, get_elem?, take, drop, arith, ltb, leb, ◌==◌, Bool-cases,
}
use wudoovm.Common.Int.{ℤ, pos, negsuc, pos_part, neg_part, ◌+ℤ◌}
use wudoovm.Common.Outcome.{ok, throw}
use wudoovm.Types.Vector.{
  Fault, positive_index, negative_index, empty_vector, check_insert, check_access, offset_of,
  position, insert, pop, at,
}

-- The place that an index names in a vector of some size.
abbrev pub IsAt : ℤ → ℕ → ℕ → Type 0
IsAt (pos i) size o = i ≡ o
IsAt (negsuc m) size o = o + suc m ≡ size

abbrev pub beyond : ℤ → ℕ → Fault
beyond (pos i) size = positive_index (pos i) size
beyond (negsuc m) size = negative_index (negsuc m) size

from_back : (m size o : ℕ) → o + suc m ≡ size → pos size +ℤ negsuc m ≡ pos o
unfolding ◌+ℤ◌
from_back m size o e = ground arith

position_at :
    (index : ℤ) (size o : ℕ)
    → IsAt index size o
    → o ≤ size
    → position (offset_of index size) size ≡ ok o
unfolding offset_of
position_at (pos i) size o e le = ground arith
position_at (negsuc m) size o e le =
    let within : leb o size ≡ true = ground arith in rw (from_back m size o e, within) refl

check_insert_ok :
    (index : ℤ) (size o : ℕ) → IsAt index size o → o ≤ size → check_insert index size ≡ ok tt
check_insert_ok (pos zero) size o e le = refl
check_insert_ok (pos (suc i)) size o e le = ground arith
check_insert_ok (negsuc m) size o e le = ground arith

check_access_ok :
    (index : ℤ) (size o : ℕ) → IsAt index size o → o < size → check_access index size ≡ ok tt
check_access_ok (pos zero) size o e lt = ground arith
check_access_ok (pos (suc i)) size o e lt = ground arith
check_access_ok (negsuc m) size o e lt = ground arith

-- What an access throws where the index names no object.
abbrev pub no_object : ℤ → ℕ → Fault
no_object index zero = empty_vector index
no_object index (suc n) = beyond index (suc n)

-- The index names no object.
abbrev pub Outside : ℤ → ℕ → Type 0
Outside (pos i) size = size ≤ i
Outside (negsuc m) size = size ≤ m

suc_ne_zero : (n : ℕ) → (suc n == 0) ≡ false
suc_ne_zero n = ground arith

-- Every index names an object, or an access throws.
access :
    (index : ℤ) (size : ℕ)
    → ((o : ℕ) × IsAt index size o × (o < size))
      ⊎ (Outside index size × (check_access index size ≡ throw (no_object index size)))
access (pos i) zero = inr (omega arith, refl)
access (negsuc m) zero = inr (omega arith, refl)
access (pos zero) (suc n) = inl (0, refl, omega arith)
access (pos (suc i)) (suc n) = elim (Bool-cases (leb (suc n) (suc i))) [
  | inl there ↦ inr (ground arith, rw (suc_ne_zero n, there) refl)
  | inr here ↦ inl (suc i, refl, ground arith)
]
access (negsuc m) (suc n) = elim (Bool-cases (ltb (suc n) (suc m))) [
  | inl there ↦ inr (ground arith, rw (suc_ne_zero n, there) refl)
  | inr here ↦ inl (suc n - suc m, ground arith, ground arith)
]

pub get_elem_lt :
    {V : Type 0} (xs : List V) (o : ℕ) → o < length xs → (x : V) × (get_elem? xs o ≡ some x)
get_elem_lt [] o lt = absurd (omega arith)
get_elem_lt (x ∷ xs) zero lt = (x, refl)
get_elem_lt (x ∷ xs) (suc o) lt = get_elem_lt xs o (omega arith)

-- Every index is a place or beyond the vector.
locate :
    (index : ℤ) (size : ℕ)
    → ((o : ℕ) × IsAt index size o × (o ≤ size)) ⊎ (size < pos_part index + neg_part index)
locate (pos i) size = elim (Bool-cases (leb i size)) [
  | inl here ↦ inl (i, refl, ground arith)
  | inr there ↦ inr (ground arith)
]
locate (negsuc m) size = elim (Bool-cases (leb (suc m) size)) [
  | inl here ↦ inl (size - suc m, ground arith, omega arith)
  | inr there ↦ inr (ground arith)
]

check_insert-beyond :
    (index : ℤ) (size : ℕ)
    → size < pos_part index + neg_part index
    → check_insert index size ≡ throw (beyond index size)
check_insert-beyond (pos zero) size lt = absurd (omega arith)
check_insert-beyond (pos (suc i)) size lt = ground arith
check_insert-beyond (negsuc m) size lt = ground arith

module _ {V : Type 0} (xs : List V) (index : ℤ) where
  pub insert_at :
      (x : V) (o : ℕ)
      → IsAt index (length xs) o
      → o ≤ length xs
      → insert xs index x ≡ ok (take o xs ++ (x ∷ drop o xs))
  unfolding insert
  insert_at x o a le =
      rw (check_insert_ok index (length xs) o a le, position_at index (length xs) o a le) refl

  pub pop_at :
      (x : V) (o : ℕ)
      → IsAt index (length xs) o
      → o < length xs
      → get_elem? xs o ≡ some x
      → pop xs index ≡ ok (x, take o xs ++ drop (suc o) xs)
  unfolding pop
  pop_at x o a lt g =
      rw
        (
          check_access_ok index (length xs) o a lt,
          position_at index (length xs) o a (omega arith),
          g,
        )
        refl

  -- An object is inserted before the place that the index names, which may be the end; an index
  -- of a greater magnitude than the size throws, and says on which side.
  pub insert-cases :
      (x : V)
      → ((o : ℕ) × IsAt index (length xs) o
          × (o ≤ length xs)
          × (insert xs index x ≡ ok (take o xs ++ (x ∷ drop o xs))))
        ⊎ ((length xs < pos_part index + neg_part index)
            × (insert xs index x ≡ throw (beyond index (length xs))))
  unfolding insert
  insert-cases x = elim (locate index (length xs)) [
    | inl h ↦ inl (h.0, h.1, h.2, insert_at x h.0 h.1 h.2)
    | inr lt ↦ inr (lt, rw (check_insert-beyond index (length xs) lt) refl)
  ]

  -- `pop` and `at` find the same object, at the place that the index names, and `pop` leaves the others
  -- in their order; where it names none both throw the same exception.
  pub pop-cases :
      ((o : ℕ) × (x : V) × IsAt index (length xs) o
        × (o < length xs)
        × (get_elem? xs o ≡ some x)
        × (pop xs index ≡ ok (x, take o xs ++ drop (suc o) xs))
        × (at xs index ≡ ok x))
      ⊎ (Outside index (length xs)
          × (pop xs index ≡ throw (no_object index (length xs)))
          × (at xs index ≡ throw (no_object index (length xs))))
  unfolding pop at
  pop-cases = elim (access index (length xs)) [
    | inl h ↦
        let c = check_access_ok index (length xs) h.0 h.1 h.2 in
        let p = position_at index (length xs) h.0 h.1 (omega arith) in
        let g = get_elem_lt xs h.0 h.2 in
        inl (h.0, g.0, h.1, h.2, g.1, pop_at g.0 h.0 h.1 h.2 g.1, rw (c, p, g.1) refl)
    | inr h ↦ inr (h.0, rw h.1 refl, rw h.1 refl)
  ]
