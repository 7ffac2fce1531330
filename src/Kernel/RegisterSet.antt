-- ===== src/Kernel/RegisterSet.antt =====
-- `Register_set` of include/viua/kernel/registerset.h and src/kernel/registerset.cpp.
use Prim.Native.String.{String}
use wudoovm.Common.{
  ℕ, zero, suc, ◌+◌, Bool, none, some, List, length, get_or, set, replicate, leb, if◌then◌else◌,
}
use wudoovm.Common.Outcome.{Outcome, ok, throw, ◌>>=◌, ◌>>◌}
use wudoovm.Kernel.Value.{Value, Pointer, Cells, plain, reference, rebind, copy_value}
use wudoovm.Kernel.Register
use wudoovm.Kernel.Register.{Register, register, is_null}

-- The message of an exception; an index that the source prints at its end stands beside it.
pub data Exception : Type 0 where
  message : String → Exception
  message_with : String → ℕ → Exception
  tagged : String → ℕ → ℕ → Exception
  -- `std::out_of_range`, from a `registers.at` with no register
  out_of_range : Exception

pub record RegisterSet (V : Type 0) : Type 0 where
  pub registerset_size : ℕ
  pub registers : List (Register V)

abbrev pub Fallible : Type 0 → Type 0
Fallible A = Outcome Exception A

-- A guard `if (c) throw e;`.
abbrev pub throw_if : Bool → Exception → Fallible (Unit {0})
throw_if c e = if c then throw e else ok tt

module _ {V : Type 0} where
  abbrev pub with_registers : RegisterSet V → List (Register V) → RegisterSet V
  with_registers s rs = record { registerset_size = s.registerset_size; registers = rs }

  abbrev pub vacant : Register V
  vacant = register none 0

  -- `Register_set(size_type)`.
  unfoldable pub of_size : ℕ → RegisterSet V
  of_size sz = record { registerset_size = sz; registers = replicate sz vacant }

  -- `registers.at(index)`.
  abbrev pub register_of : RegisterSet V → ℕ → Fallible (Register V)
  register_of s index =
      if leb (length s.registers) index
      then throw out_of_range
      else ok (get_or s.registers index vacant)

  -- Writing the register back.
  abbrev pub put_register : RegisterSet V → ℕ → Register V → RegisterSet V
  put_register s index r = with_registers s (set s.registers index r)

  unfoldable pub put : Cells V → RegisterSet V → ℕ → Pointer V → Fallible (Cells V × RegisterSet V)
  put cells s index object = do
    throw_if (leb s.registerset_size index) (message "register access out of bounds: write")
    r ← register_of s index
    let (cells', r') = Register.reset cells r object
    ok (cells', put_register s index r')

  -- The last two branches of `set`: a reference is bound again, another register is reset.
  abbrev pub set_in : Cells V → Register V → Pointer V → Pointer V → Cells V × Register V
  set_in cells r (some (reference c)) object = (rebind cells c object, r)
  set_in cells r (some (plain v)) object = Register.reset cells r object
  set_in cells r none object = Register.reset cells r object

  unfoldable pub set_value :
      Cells V → RegisterSet V → ℕ → Pointer V → Fallible (Cells V × RegisterSet V)
  set_value cells s index object = do
    throw_if (leb (length s.registers) index) (message "register access out of bounds: write")
    r ← register_of s index
    let (cells', r') = set_in cells r r.value object
    ok (cells', put_register s index r')

  unfoldable pub at : RegisterSet V → ℕ → Fallible (Pointer V)
  at s index = do
    throw_if (leb s.registerset_size index)
        (message_with "register access out of bounds: read from " index)
    r ← register_of s index
    ok r.value

  unfoldable pub get : RegisterSet V → ℕ → Fallible (Value V)
  get s index = do
    throw_if (leb s.registerset_size index)
        (message_with "register access out of bounds: read from " index)
    r ← register_of s index
    elim r.value [
      | none ↦ throw (message_with "(get) read from null register: " index)
      | some v ↦ ok v
    ]

  -- The overload for a constant register set.
  unfoldable pub get_const : RegisterSet V → ℕ → Fallible (Value V)
  get_const s index = do
    throw_if (leb s.registerset_size index)
        (tagged "Register_access_out_of_bounds" index s.registerset_size)
    r ← register_of s index
    elim r.value [
      | none ↦ throw (tagged "Null_register_access" index s.registerset_size)
      | some v ↦ ok v
    ]

  -- The register itself; the source returns a pointer to it.
  unfoldable pub register_at : RegisterSet V → ℕ → Fallible (Register V)
  register_at s index = do
    throw_if (leb s.registerset_size index)
        (message_with "register access out of bounds: read from " index)
    register_of s index

  unfoldable pub empty : RegisterSet V → ℕ → Fallible (RegisterSet V)
  empty s here = do
    throw_if (leb s.registerset_size here) (message "register access out of bounds: empty")
    r ← register_of s here
    ok (put_register s here (Register.release r).0)

  unfoldable pub pop : RegisterSet V → ℕ → Fallible (RegisterSet V × Pointer V)
  pop s index = do object ← at s index; s' ← empty s index; ok (s', object)

  unfoldable pub move : Cells V → RegisterSet V → ℕ → ℕ → Fallible (Cells V × RegisterSet V)
  move cells s src dst = do
    throw_if (leb s.registerset_size src) (message "register access out of bounds: move source")
    throw_if (leb s.registerset_size dst)
        (message "register access out of bounds: move destination")
    (s', object) ← pop s src
    set_value cells s' dst object

  unfoldable pub swap : RegisterSet V → ℕ → ℕ → Fallible (RegisterSet V)
  swap s src dst = do
    throw_if (leb s.registerset_size src) (message "register access out of bounds: swap source")
    throw_if (leb s.registerset_size dst)
        (message "register access out of bounds: swap destination")
    let (r_src, r_dst) =
        Register.swap (get_or s.registers src vacant) (get_or s.registers dst vacant)
    ok (put_register (put_register s src r_src) dst r_dst)

  unfoldable pub free : RegisterSet V → ℕ → Fallible (RegisterSet V)
  free s here = do
    throw_if (leb s.registerset_size here) (message "register access out of bounds: free")
    r ← register_of s here
    throw_if (Register.empty r) (message "invalid free: trying to free a null pointer")
    ok (put_register s here (Register.give r).0)

  unfoldable pub flag : RegisterSet V → ℕ → ℕ → Fallible (RegisterSet V)
  flag s index filter = do
    throw_if (leb s.registerset_size index) (message "register access out of bounds: mask_enable")
    r ← register_of s index
    throw_if (Register.empty r) (message_with "(flag) flagging null register: " index)
    ok (put_register s index (Register.flag r filter).0)

  unfoldable pub unflag : RegisterSet V → ℕ → ℕ → Fallible (RegisterSet V)
  unflag s index filter = do
    throw_if (leb s.registerset_size index) (message "register access out of bounds: mask_disable")
    r ← register_of s index
    throw_if (Register.empty r) (message_with "(unflag) unflagging null register: " index)
    ok (put_register s index (Register.unflag r filter).0)

  unfoldable pub clear : RegisterSet V → ℕ → Fallible (RegisterSet V)
  clear s index = do
    throw_if (leb s.registerset_size index) (message "register access out of bounds: mask_clear")
    r ← register_of s index
    ok (put_register s index (Register.set_mask r 0).0)

  unfoldable pub is_flagged : RegisterSet V → ℕ → ℕ → Fallible Bool
  is_flagged s index filter = do
    throw_if (leb s.registerset_size index)
        (message "register access out of bounds: mask_isenabled")
    r ← register_of s index
    ok (Register.is_flagged r filter)

  unfoldable pub set_mask : RegisterSet V → ℕ → ℕ → Fallible (RegisterSet V)
  set_mask s index mask = do
    throw_if (leb s.registerset_size index) (message "register access out of bounds: mask_disable")
    r ← register_of s index
    throw_if (Register.empty r) (message_with "(setmask) setting mask for null register: " index)
    ok (put_register s index (Register.set_mask r mask).0)

  unfoldable pub get_mask : RegisterSet V → ℕ → Fallible ℕ
  get_mask s index = do
    throw_if (leb s.registerset_size index) (message "register access out of bounds: mask_disable")
    r ← register_of s index
    throw_if (Register.empty r) (message_with "(getmask) getting mask of null register: " index)
    ok (Register.get_mask r)

  -- The loop of `drop`, with `left` rounds from index `i`.
  unfoldable pub drop_loop : ℕ → ℕ → RegisterSet V → Fallible (RegisterSet V)
  drop_loop zero i s = ok s
  drop_loop (suc left) i s = empty s i >>= λ s'. drop_loop left (i + 1) s'

  unfoldable pub drop : RegisterSet V → Fallible (RegisterSet V)
  unfolding drop_loop
  drop s = drop_loop s.registerset_size 0 s

  -- One round of the loop of `copy`, for a register that is not empty.
  unfoldable pub copy_round :
      (V → V)
      → Cells V
      → RegisterSet V
      → ℕ
      → Pointer V
      → RegisterSet V
      → Fallible (Cells V × RegisterSet V)
  copy_round copy cells s i none rscopy = ok (cells, rscopy)
  copy_round copy cells s i (some v) rscopy = do
    (cells', rscopy') ← set_value cells rscopy i (some (copy_value copy v))
    mask ← get_mask s i
    rscopy'' ← set_mask rscopy' i mask
    ok (cells', rscopy'')

  -- The loop of `copy`, with `left` rounds from index `i`.
  unfoldable pub copy_loop :
      (V → V) → ℕ → ℕ → Cells V → RegisterSet V → RegisterSet V → Fallible (Cells V × RegisterSet V)
  copy_loop copy zero i cells s rscopy = ok (cells, rscopy)
  copy_loop copy (suc left) i cells s rscopy = do
    object ← at s i
    (cells', rscopy') ← copy_round copy cells s i object rscopy
    copy_loop copy left (i + 1) cells' s rscopy'

  -- `copy`, with what `Value::copy` does to a value that is no reference.
  unfoldable pub copy_set : (V → V) → Cells V → RegisterSet V → Fallible (Cells V × RegisterSet V)
  copy_set copy cells s = copy_loop copy s.registerset_size 0 cells s (of_size s.registerset_size)
