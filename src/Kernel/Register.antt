-- ===== src/Kernel/Register.antt =====
-- `Register` of include/viua/kernel/registerset.h and src/kernel/registerset.cpp. A method that
-- changes the register returns the new one, before its own result.
use wudoovm.Common.{ℕ, Bool, true, false, not, none, some, bit_and, bit_or, bit_xor, ◌==◌}
use wudoovm.Kernel.Value.{Pointer, Cells, plain, reference, rebind}

pub record Register (V : Type 0) : Type 0 where
  pub value : Pointer V
  pub mask : ℕ

module _ {V : Type 0} where
  abbrev pub register : Pointer V → ℕ → Register V
  register v m = record { value = v; mask = m }

  -- A register that holds a reference keeps it, and the cell takes the value.
  unfoldable pub reset_value : Cells V → Pointer V → ℕ → Pointer V → Cells V × Register V
  unfolding rebind
  reset_value cells (some (reference c)) m o = (rebind cells c o, register (some (reference c)) m)
  reset_value cells (some (plain v)) m o = (cells, register o m)
  reset_value cells none m o = (cells, register o m)

  unfoldable pub reset : Cells V → Register V → Pointer V → Cells V × Register V
  unfolding reset_value
  reset cells r o = reset_value cells r.value r.mask o

  abbrev pub is_null : Pointer V → Bool
  is_null none = true
  is_null (some v) = false

  unfoldable pub empty : Register V → Bool
  empty r = is_null r.value

  unfoldable pub get : Register V → Pointer V
  get r = r.value

  unfoldable pub release : Register V → Register V × Pointer V
  release r = (register none 0, r.value)

  unfoldable pub give : Register V → Register V × Pointer V
  give r = (register none 0, r.value)

  unfoldable pub swap : Register V → Register V → Register V × Register V
  swap this that = (register that.value that.mask, register this.value this.mask)

  unfoldable pub set_mask : Register V → ℕ → Register V × ℕ
  set_mask r new_mask = (register r.value new_mask, r.mask)

  unfoldable pub flag : Register V → ℕ → Register V × ℕ
  flag r new_mask = (register r.value (bit_or r.mask new_mask), r.mask)

  unfoldable pub unflag : Register V → ℕ → Register V × ℕ
  unflag r new_mask = (register r.value (bit_xor r.mask new_mask), r.mask)

  unfoldable pub get_mask : Register V → ℕ
  get_mask r = r.mask

  unfoldable pub is_flagged : Register V → ℕ → Bool
  is_flagged r filter = not (bit_and r.mask filter == 0)

  -- `operator=(Register&&)`: the other register is left with no value and no mask.
  unfoldable pub move_assign : Cells V → Register V → Register V → Cells V × Register V × Register V
  unfolding reset
  move_assign cells this that =
      let (cells', r) = reset cells this that.value in
      (cells', register r.value that.mask, register none 0)

  -- `operator=(std::unique_ptr<Value>&&)`.
  unfoldable pub assign : Cells V → Register V → Pointer V → Cells V × Register V
  unfolding reset
  assign cells this o = let (cells', r) = reset cells this o in (cells', register r.value 0)
