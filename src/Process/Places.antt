-- ===== src/Process/Places.antt =====
-- Registers that operands name: `Process::register_at` and the fetches of `Decoder_adapter` in
-- src/process.cpp. The operands are those that the codec decodes.
use Prim.Native.String.{String}
use wudoovm.Common.{ℕ, Bool, true, false, not, ◌&&◌, Option, none, some, [], ◌∷◌, get_or, leb}
use wudoovm.Common.Int.{ℤ, pos, negsuc}
use wudoovm.Codec.Operands.{
  RegisterAccess, AccessSpecifier, direct, register_indirect, pointer_dereference, global, local,
  static, arguments, parameters, closure_local, other,
}
use wudoovm.Codec.Operands
use wudoovm.Kernel.Value.{Pointer}
use wudoovm.Kernel.Register
use wudoovm.Kernel.Register.{Register}
use wudoovm.Kernel.RegisterSet
use wudoovm.Kernel.RegisterSet.{RegisterSet, message_with, put_register, vacant}
use wudoovm.Process.Code.{lookup, count, insert}
use wudoovm.Process.State.{Process, Place, text}
use wudoovm.Process.Action.{
  Action, exception, described, of_register_set, missing, undefined, pure, fail, gets, modify,
  throw_if, when, found, current, put_frame, ◌>>=◌, ◌>>◌,
}
use wudoovm.Process.Frames.{frame_of, back}

abbrev pub index_of : Place → ℕ
index_of (Place.local f i) = i
index_of (Place.argument f i) = i
index_of (Place.static name i) = i
index_of (Place.global i) = i

abbrev pub is_dereference : AccessSpecifier → Bool
is_dereference direct = false
is_dereference register_indirect = false
is_dereference pointer_dereference = true

module _ {V : Type 0} where
  abbrev pub back_frame : Action V ℕ
  back_frame = do s ← gets (λ p. p.stack); back s

  abbrev pub new_frame_of_current : Action V ℕ
  new_frame_of_current = do x ← gets current; found undefined x.frame_new

  -- `Register_set::register_at`, which checks the index.
  abbrev pub check_index : RegisterSet V → ℕ → Action V (Unit {0})
  check_index rs i =
      throw_if (leb rs.registerset_size i)
        (of_register_set (message_with "register access out of bounds: read from " i))

  unfoldable pub ensure_static_registers : String → Action V (Unit {0})
  ensure_static_registers function_name p =
      when (not (count p.static_registers function_name))
        (modify (λ q. record q {
          static_registers = insert q.static_registers function_name (RegisterSet.of_size 16);
        }))
        p

  abbrev pub local_at : ℕ → ℕ → Action V Place
  local_at f i = do
    x ← frame_of f
    rs ← found undefined x.local_register_set
    check_index rs i
    pure (Place.local f i)

  abbrev pub argument_at : ℕ → ℕ → Action V Place
  argument_at f i = do x ← frame_of f; check_index x.arguments i; pure (Place.argument f i)

  unfoldable pub static_at : ℕ → ℕ → Action V Place
  unfolding ensure_static_registers
  static_at f i = do
    x ← frame_of f
    ensure_static_registers x.function_name
    table ← gets (λ p. p.static_registers)
    rs ← found missing (lookup table x.function_name)
    check_index rs i
    pure (Place.static x.function_name i)

  abbrev pub global_at : ℕ → Action V Place
  global_at i = do rs ← gets (λ p. p.global_register_set); check_index rs i; pure (Place.global i)

  unfoldable pub register_at : ℕ → Operands.RegisterSet → Action V Place
  unfolding static_at
  register_at i local = do f ← back_frame; local_at f i
  register_at i static = do f ← back_frame; static_at f i
  register_at i global = global_at i
  register_at i parameters = do f ← back_frame; argument_at f i
  register_at i arguments = do f ← new_frame_of_current; argument_at f i
  register_at i closure_local = fail (described (text "unsupported register set type" ∷ []))
  register_at i (other n) = fail (described (text "unsupported register set type" ∷ []))

  -- The register set that a place lies in, and the process with another one there.
  abbrev pub set_at : Place → Process V → Option (RegisterSet V)
  set_at (Place.local f i) p = (p.frame_at f).local_register_set
  set_at (Place.argument f i) p = some (p.frame_at f).arguments
  set_at (Place.static name i) p = lookup p.static_registers name
  set_at (Place.global i) p = some p.global_register_set

  abbrev pub put_set : Place → RegisterSet V → Process V → Process V
  put_set (Place.local f i) rs p =
      put_frame f (record (p.frame_at f) { local_register_set = some rs }) p
  put_set (Place.argument f i) rs p = put_frame f (record (p.frame_at f) { arguments = rs }) p
  put_set (Place.static name i) rs p = record p {
    static_registers = insert p.static_registers name rs;
  }
  put_set (Place.global i) rs p = record p { global_register_set = rs }

  -- A read through a pointer to a register.
  abbrev pub read_place : Place → Action V (Register V)
  read_place r = do
    rs ← gets (set_at r)
    rs' ← found undefined rs
    pure (get_or rs'.registers (index_of r) vacant)

  abbrev pub write_place : Place → Register V → Action V (Unit {0})
  write_place r x = do
    rs ← gets (set_at r)
    rs' ← found undefined rs
    modify (put_set r (put_register rs' (index_of r) x))

  -- `*r = std::move(v)`.
  unfoldable pub assign_place : Place → Pointer V → Action V (Unit {0})
  assign_place r v = do
    x ← read_place r
    cells ← gets (λ p. p.cells)
    let (cells', x') = Register.assign cells x v
    modify (λ p. record p { cells = cells' })
    write_place r x'

  -- `r->give()`.
  unfoldable pub give_place : Place → Action V (Pointer V)
  give_place r = do x ← read_place r; let (x', v) = Register.give x; write_place r x'; pure v

  abbrev pub index_from : ℤ → Action V ℕ
  index_from (pos i) = pure i
  index_from (negsuc i) = fail (
      exception (record {
        tag = "Invalid_register_index";
        description = text "registers cannot be negative" ∷ [];
        value = none;
      }))

  -- `as_integer` is what `Integer::as_integer` makes of a value that a register holds.
  module _ (as_integer : Pointer V → ℤ) where
    unfoldable pub follow : AccessSpecifier → Operands.RegisterSet → Place → Action V Place
    unfolding register_at
    follow direct rs slot = pure slot
    follow pointer_dereference rs slot = pure slot
    follow register_indirect rs slot = do
      x ← read_place slot
      i ← index_from (as_integer (Register.get x))
      register_at i rs

    unfoldable pub fetch_register : Bool → RegisterAccess → Action V Place
    unfolding register_at follow
    fetch_register pointers_allowed reg = do
      throw_if (not pointers_allowed && is_dereference reg.access) (
          exception (record {
            tag = "Invalid_access";
            description = text "pointer dereference not allowed" ∷ [];
            value = none;
          }))
      slot ← register_at reg.index reg.set
      follow reg.access reg.set slot
