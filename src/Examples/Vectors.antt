-- ===== src/Examples/Vectors.antt =====
-- Vectors of numbers, for src/types/vector.cpp.
use wudoovm.Common.{
  ℕ, suc, ◌+◌, ◌≤◌, ◌<◌, ◌≡◌, refl, ◌⊎◌, some, List, [], ◌∷◌, ◌++◌, take, drop, get_elem?, arith,
}
use wudoovm.Common.Int.{pos, negsuc}
use wudoovm.Common.Outcome.{ok, throw}
use wudoovm.Types.Vector.{positive_index, negative_index, insert, pop, at}
use wudoovm.Types.Vector.Cases.{insert-cases, pop-cases}
use wudoovm.Types.Vector.RoundTrip.{pop-insert}

abbrev three : List ℕ
three = 7 ∷ 8 ∷ 9 ∷ []

insert_beyond_end : insert three (pos 4) 5 ≡ throw (positive_index (pos 4) 3)
unfolding insert
insert_beyond_end = refl

insert-cases_example :
    ((o : ℕ) × (o + 1 ≡ 3)
      × (o ≤ 3)
      × (insert three (negsuc 0) 5 ≡ ok (take o three ++ (5 ∷ drop o three))))
    ⊎ ((3 < 1) × (insert three (negsuc 0) 5 ≡ throw (negative_index (negsuc 0) 3)))
insert-cases_example = insert-cases three (negsuc 0) 5

pop-cases_example :
    ((o : ℕ) × (x : ℕ) × (o + 3 ≡ 3)
      × (o < 3)
      × (get_elem? three o ≡ some x)
      × (pop three (negsuc 2) ≡ ok (x, take o three ++ drop (suc o) three))
      × (at three (negsuc 2) ≡ ok x))
    ⊎ ((3 ≤ 2)
        × (pop three (negsuc 2) ≡ throw (negative_index (negsuc 2) 3))
        × (at three (negsuc 2) ≡ throw (negative_index (negsuc 2) 3)))
pop-cases_example = pop-cases three (negsuc 2)

pop-insert_example :
    (ys : List ℕ) × (insert three (negsuc 0) 5 ≡ ok ys) × (pop ys (negsuc 1) ≡ ok (5, three))
pop-insert_example = pop-insert three (negsuc 0) 5 2 (omega arith) (omega arith)
