-- ===== src/Types/Vector/RoundTrip.antt =====
-- `insert`, `push` and `pop` of src/types/vector.cpp undo each other, and `copy` copies each object.
use wudoovm.Common.{
  ℕ, zero, suc, ◌≤◌, ◌<◌, ◌≡◌, refl, sym, ap, ◌∙◌, some, List, [], ◌∷◌, ◌++◌, map, length,
  get_elem?, take, drop, arith, length-append,
}
use mathlib.Core.List.{append_assoc, append-nil}
use wudoovm.Common.Int.{ℤ, pos, negsuc}
use wudoovm.Common.Outcome.{ok}
use wudoovm.Types.Vector.{insert, push, pop, copy, copy_loop}
use wudoovm.Types.Vector.Cases.{IsAt, insert_at, pop_at, get_elem_lt}

-- The index of an object that was inserted at an index.
abbrev pub index_after : ℤ → ℤ
index_after (pos i) = pos i
index_after (negsuc m) = negsuc (suc m)

IsAt-index_after :
    (index : ℤ) (size o : ℕ) → IsAt index size o → IsAt (index_after index) (suc size) o
IsAt-index_after (pos i) size o a = a
IsAt-index_after (negsuc m) size o a = omega arith

module _ {V : Type 0} where
  length-inserted :
      (xs : List V) (o : ℕ) (x : V)
      → o ≤ length xs
      → length (take o xs ++ (x ∷ drop o xs)) ≡ suc (length xs)
  length-inserted xs zero x le = refl
  length-inserted [] (suc o) x le = absurd (omega arith)
  length-inserted (y ∷ xs) (suc o) x le = ap suc (length-inserted xs o x (omega arith))

  get_inserted :
      (xs : List V) (o : ℕ) (x : V)
      → o ≤ length xs
      → get_elem? (take o xs ++ (x ∷ drop o xs)) o ≡ some x
  get_inserted xs zero x le = refl
  get_inserted [] (suc o) x le = absurd (omega arith)
  get_inserted (y ∷ xs) (suc o) x le = get_inserted xs o x (omega arith)

  take_inserted :
      (xs : List V) (o : ℕ) (x : V)
      → o ≤ length xs
      → take o (take o xs ++ (x ∷ drop o xs)) ++ drop (suc o) (take o xs ++ (x ∷ drop o xs)) ≡ xs
  take_inserted xs zero x le = refl
  take_inserted [] (suc o) x le = absurd (omega arith)
  take_inserted (y ∷ xs) (suc o) x le = ap (λ t. y ∷ t) (take_inserted xs o x (omega arith))

  insert_removed :
      (xs : List V) (o : ℕ) (x : V)
      → get_elem? xs o ≡ some x
      → let ys = take o xs ++ drop (suc o) xs in take o ys ++ (x ∷ drop o ys) ≡ xs
  insert_removed [] o x e = absurd (cc)
  insert_removed (y ∷ xs) zero x e = ap (λ t. t ∷ xs) (ground arith)
  insert_removed (y ∷ xs) (suc o) x e = ap (λ t. y ∷ t) (insert_removed xs o x e)

  -- An object that is inserted at an index is what a pop takes out there again, and then the vector is
  -- as before; counted from the back, the index of the object is one more. The index is assumed to
  -- name a place in the vector or its end.
  pub pop-insert :
      (xs : List V) (index : ℤ) (x : V) (o : ℕ)
      → IsAt index (length xs) o
      → o ≤ length xs
      → (ys : List V) × (insert xs index x ≡ ok ys) × (pop ys (index_after index) ≡ ok (x, xs))
  pop-insert xs index x o a le =
      let ys = take o xs ++ (x ∷ drop o xs) in
      let n = length-inserted xs o x le in
      (
        ys,
        insert_at xs index x o a le,
        pop_at ys (index_after index) x o (rw n (IsAt-index_after index (length xs) o a))
              (rw n (omega arith)) (get_inserted xs o x le)
            ∙ ap (λ zs. ok (x, zs)) (take_inserted xs o x le),
      )

  length-removed : (xs : List V) (o : ℕ) → o < length xs → o ≤ length (take o xs ++ drop (suc o) xs)
  length-removed [] o lt = absurd (omega arith)
  length-removed (y ∷ xs) zero lt = omega arith
  length-removed (y ∷ xs) (suc o) lt = let h = length-removed xs o (omega arith) in omega arith

  -- What is popped at an index from the front is put back by an insert there.
  insert-pop :
      (xs : List V) (i : ℕ)
      → i < length xs
      → (x : V) × (ys : List V) × (pop xs (pos i) ≡ ok (x, ys)) × (insert ys (pos i) x ≡ ok xs)
  insert-pop xs i lt =
      let g = get_elem_lt xs i lt in
      let ys = take i xs ++ drop (suc i) xs in
      (
        g.0,
        ys,
        pop_at xs (pos i) g.0 i refl lt g.1,
        insert_at ys (pos i) g.0 i refl (length-removed xs i lt)
            ∙ ap ok (insert_removed xs i g.0 g.1),
      )

  get_pushed : (xs : List V) (x : V) → get_elem? (xs ++ (x ∷ [])) (length xs) ≡ some x
  get_pushed [] x = refl
  get_pushed (y ∷ xs) x = get_pushed xs x

  take_pushed :
      (xs : List V) (x : V)
      → take (length xs) (xs ++ (x ∷ [])) ++ drop (suc (length xs)) (xs ++ (x ∷ [])) ≡ xs
  take_pushed [] x = refl
  take_pushed (y ∷ xs) x = ap (λ t. y ∷ t) (take_pushed xs x)

  -- Without an index, a pop takes the object that was pushed last.
  pop-push : (xs : List V) (x : V) → pop (push xs x) (negsuc 0) ≡ ok (x, xs)
  unfolding push
  pop-push xs x =
      let n = length-append xs (x ∷ []) in
      pop_at (xs ++ (x ∷ [])) (negsuc 0) x (length xs) (omega arith) (omega arith) (get_pushed xs x)
      ∙ ap (λ zs. ok (x, zs)) (take_pushed xs x)

  copy_loop-append : (f : V → V) (xs v : List V) → copy_loop f xs v ≡ v ++ map f xs
  unfolding copy_loop push
  copy_loop-append f [] v = sym (append-nil v)
  copy_loop-append f (x ∷ xs) v =
      copy_loop-append f xs (v ++ (f x ∷ [])) ∙ append_assoc v (f x ∷ []) (map f xs)

  -- The copy has a copy of each object, in order.
  copy-map : (f : V → V) (xs : List V) → copy f xs ≡ map f xs
  unfolding copy
  copy-map f xs = copy_loop-append f xs []
