-- ===== src/Kernel/Moves.antt =====
-- Values that move between the registers of a `Register_set` of src/kernel/registerset.cpp.
use wudoovm.Common.{
  ℕ, ◌<◌, ◌≡◌, ◌≢◌, refl, ap, ◌∙◌, false, none, some, List, length, get_or, set, length-set,
  get_or-set, get_or-set_self, get_or-set_ne, set-set, Bool-cases, inl, inr, get_or_ext, leb, ◌==◌,
  if◌then◌else◌, arith,
}
use wudoovm.Common.Outcome.{ok, ◌>>=◌}
use wudoovm.Kernel.Value.{Pointer, Cells, plain, reference, rebind}
use wudoovm.Kernel.Register
use wudoovm.Kernel.Register.{Register, register}
use wudoovm.Kernel.RegisterSet
use wudoovm.Kernel.RegisterSet.{
  RegisterSet, Fallible, with_registers, vacant, put_register, register_of, set_in,
}
use wudoovm.Kernel.Bounds.{IsWellFormed}

module _ {V : Type 0} where
  abbrev pub content : RegisterSet V → ℕ → Register V
  content s i = get_or s.registers i vacant

  -- What is left of a register with a value and a mask, and of the cells, when another value is
  -- put there: a reference stays, and its cell takes the value; else the register does. The mask
  -- stays.
  abbrev pub stored_over : Cells V → Pointer V → ℕ → Pointer V → Cells V × Register V
  stored_over cells none m o = (cells, register o m)
  stored_over cells (some (plain v)) m o = (cells, register o m)
  stored_over cells (some (reference c)) m o = (set cells c o, register (some (reference c)) m)

  abbrev pub stored : Cells V → Register V → Pointer V → Cells V × Register V
  stored cells r o = stored_over cells r.value r.mask o

  set_in-stored :
      (cells : Cells V) (r : Register V) (o : Pointer V)
      → set_in cells r r.value o ≡ stored cells r o
  unfolding Register.reset Register.reset_value rebind
  set_in-stored cells r o = by_value r.value r.mask
    where
      by_value : (v : Pointer V) (m : ℕ) → set_in cells (register v m) v o ≡ stored_over cells v m o
      by_value none m = refl
      by_value (some (plain x)) m = refl
      by_value (some (reference c)) m = refl

  pub in_range :
      (s : RegisterSet V) (i : ℕ)
      → IsWellFormed s
      → i < s.registerset_size
      → (leb s.registerset_size i ≡ false) × (leb (length s.registers) i ≡ false)
  in_range s i wf h = (ground arith, ground arith)

  pop-in_range :
      (s : RegisterSet V) (i : ℕ)
      → IsWellFormed s
      → i < s.registerset_size
      → RegisterSet.pop s i ≡ ok (put_register s i vacant, (content s i).value)
  unfolding RegisterSet.pop RegisterSet.at RegisterSet.empty Register.release
  pop-in_range s i wf h = let (a, b) = in_range s i wf h in rw (a, b) refl

  pub set_value-in_range :
      (cells : Cells V) (s : RegisterSet V) (i : ℕ) (o : Pointer V)
      → i < length s.registers
      → RegisterSet.set_value cells s i o
        ≡ ok ((stored cells (content s i) o).0, put_register s i (stored cells (content s i) o).1)
  unfolding RegisterSet.set_value
  set_value-in_range cells s i o h =
      let a : leb (length s.registers) i ≡ false = ground arith in
      rw a (
        ap
          (λ (p : Cells V × Register V).
            let r : Fallible (Cells V × RegisterSet V) = ok (p.0, put_register s i p.1) in r)
          (set_in-stored cells (content s i) o))

  put-in_range :
      (cells : Cells V) (s : RegisterSet V) (i : ℕ) (o : Pointer V)
      → IsWellFormed s
      → i < s.registerset_size
      → RegisterSet.put cells s i o
        ≡ ok (
          (Register.reset cells (content s i) o).0,
          put_register s i (Register.reset cells (content s i) o).1,
        )
  unfolding RegisterSet.put
  put-in_range cells s i o wf h = let (a, b) = in_range s i wf h in rw (a, b) refl

  reset-set_in :
      (cells : Cells V) (r : Register V) (o : Pointer V)
      → Register.reset cells r o ≡ set_in cells r r.value o
  unfolding Register.reset Register.reset_value rebind
  reset-set_in cells r o = by_value r.value r.mask
    where
      by_value :
          (v : Pointer V) (m : ℕ)
          → Register.reset cells (register v m) o ≡ set_in cells (register v m) v o
      by_value none m = refl
      by_value (some (plain x)) m = refl
      by_value (some (reference c)) m = refl

  -- `put` and `set` are the same operation on a well-formed set.
  put-set_value :
      (cells : Cells V) (s : RegisterSet V) (i : ℕ) (o : Pointer V)
      → IsWellFormed s
      → RegisterSet.put cells s i o ≡ RegisterSet.set_value cells s i o
  unfolding RegisterSet.put RegisterSet.set_value
  put-set_value cells s i o wf =
      let same = reset-set_in cells (content s i) o in
      elim (Bool-cases (leb s.registerset_size i)) [
        | inl out ↦ rw (wf, out) refl
        | inr inside ↦
            rw (wf, inside)
              (ap
                (λ (p : Cells V × Register V).
                  let r : Fallible (Cells V × RegisterSet V) = ok (p.0, put_register s i p.1) in r)
                same)
      ]

  -- In a well-formed set, `move` between two different registers in range takes the value and the
  -- mask out of the source. The destination keeps its mask; it takes the value, unless it holds a
  -- reference, whose cell takes the value then. No other register changes.
  pub move-content :
      (cells : Cells V) (s : RegisterSet V) (src dst : ℕ)
      → IsWellFormed s
      → src < s.registerset_size
      → dst < s.registerset_size
      → src ≢ dst
      → (s' : RegisterSet V) × (RegisterSet.move cells s src dst
          ≡ ok ((stored cells (content s dst) (content s src).value).0, s'))
        × IsWellFormed s'
        × ((j : ℕ)
            → content s' j ≡ (
                if j == dst
                then (stored cells (content s dst) (content s src).value).1
                else if j == src
                then vacant
                else content s j))
  unfolding RegisterSet.move
  move-content cells s src dst wf hs hd ne =
      let (a, _) = in_range s src wf hs in
      let (b, _) = in_range s dst wf hd in
      let s1 = put_register s src vacant in
      let width = length-set s.registers src vacant in
      let kept : content s1 dst ≡ content s dst =
        get_or-set_ne s.registers src dst vacant vacant ne in
      let put_there = (stored cells (content s dst) (content s src).value).1 in
      let store =
        set_value-in_range cells s1 dst (content s src).value (omega (arith, width, wf)) in
      (
        put_register s1 dst put_there,
        rw (a, b, pop-in_range s src wf hs) (store ∙ rw kept refl),
        length-set s1.registers dst put_there ∙ width ∙ wf,
        λ j. ground (
          arith,
          wf,
          width,
          get_or-set s1.registers dst put_there j vacant,
          get_or-set s.registers src vacant j vacant,
        ),
      )

  abbrev swapped : List (Register V) → ℕ → ℕ → List (Register V)
  swapped rs a b = set (set rs a (get_or rs b vacant)) b (get_or rs a vacant)

  swapped_index :
      (rs : List (Register V)) (a b j : ℕ)
      → a < length rs
      → b < length rs
      → get_or (swapped rs a b) j vacant ≡ (
          if j == b
          then get_or rs a vacant
          else if j == a
          then get_or rs b vacant
          else get_or rs j vacant)
  swapped_index rs a b j ha hb = ground (
    arith,
    length-set rs a (get_or rs b vacant),
    get_or-set (set rs a (get_or rs b vacant)) b (get_or rs a vacant) j vacant,
    get_or-set rs a (get_or rs b vacant) j vacant,
  )

  length-swapped : (rs : List (Register V)) (a b : ℕ) → length (swapped rs a b) ≡ length rs
  length-swapped rs a b =
      length-set (set rs a (get_or rs b vacant)) b (get_or rs a vacant)
      ∙ length-set rs a (get_or rs b vacant)

  swapped_twice :
      (rs : List (Register V)) (a b : ℕ)
      → a < length rs
      → b < length rs
      → swapped (swapped rs a b) a b ≡ rs
  swapped_twice rs a b ha hb =
      let width = length-swapped rs a b in
      get_or_ext vacant (swapped (swapped rs a b) a b) rs
        (length-swapped (swapped rs a b) a b ∙ width)
        (λ j h. ground (
          arith,
          width,
          swapped_index (swapped rs a b) a b j,
          swapped_index rs a b a,
          swapped_index rs a b b,
          swapped_index rs a b j,
        ))

  -- Swapping two registers in range of a well-formed set twice gives the set back.
  swap-swap :
      (s : RegisterSet V) (a b : ℕ)
      → IsWellFormed s
      → a < s.registerset_size
      → b < s.registerset_size
      → (RegisterSet.swap s a b >>= λ s'. RegisterSet.swap s' a b) ≡ ok s
  unfolding RegisterSet.swap Register.swap
  swap-swap s a b wf ha hb =
      let (out_a, _) = in_range s a wf ha in
      let (out_b, _) = in_range s b wf hb in
      rw (out_a, out_b, out_a, out_b)
        (ap (λ rs. let r : Fallible (RegisterSet V) = ok (with_registers s rs) in r)
          (swapped_twice s.registers a b (omega (arith, wf)) (omega (arith, wf))))

  reset_vacant :
      (cells : Cells V) (r : Register V) (o : Pointer V)
      → r.value ≡ none
      → Register.reset cells r o ≡ (cells, register o r.mask)
  unfolding Register.reset Register.reset_value
  reset_vacant cells r o e = rw e refl

  -- What is put into a register in range of a well-formed set that holds no value comes out by `pop`, which leaves
  -- the register with no value and no mask.
  pop-put :
      (cells : Cells V) (s : RegisterSet V) (i : ℕ) (o : Pointer V)
      → IsWellFormed s
      → i < s.registerset_size
      → (content s i).value ≡ none
      → (RegisterSet.put cells s i o >>= λ r. RegisterSet.pop r.1 i)
        ≡ ok (put_register s i vacant, o)
  pop-put cells s i o wf h e =
      let filled = register o (content s i).mask in
      let s1 = put_register s i filled in
      let width = length-set s.registers i filled in
      let pop = pop-in_range s1 i (width ∙ wf) h in
      let again = set-set s.registers i filled vacant in
      let there = get_or-set_self s.registers i filled vacant (omega (arith, wf)) in
      rw (put-in_range cells s i o wf h, reset_vacant cells (content s i) o e)
        (pop ∙ λ k. ok (with_registers s (again k), (there k).value))
