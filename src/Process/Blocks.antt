-- ===== src/Process/Blocks.antt =====
-- Blocks, catchers and throwing: src/process/instr/tcmechanism.cpp.
use Prim.Native.String.{String}
use wudoovm.Common.{ℕ, not, Option, none, some, List, [], ◌∷◌, suc}
use wudoovm.Kernel.Value.{Value, Pointer}
use wudoovm.Kernel.Register.{is_null}
use wudoovm.Process.Code.{Kernel, insert, is_block}
use wudoovm.Process.State.{TryFrame, Thrown, Place, text}
use wudoovm.Process.Action.{
  Action, exception, described, undefined, pure, fail, gets, modify, throw_if, when, found, current,
  on_current, put_try_frame, ◌>>=◌, ◌>>◌,
}
use wudoovm.Process.Frames.{is_set, is_nil, back, adjust_jump_base_for_block, adjust_jump_base_for}
use wudoovm.Process.Places.{read_place, give_place, assign_place}
use wudoovm.Process.Calls.{this_stack, resume_caller}

-- `Try_frame()`.
abbrev pub new_try_frame : TryFrame
new_try_frame = record {
  return_address = none;
  associated_frame = none;
  block_name = "";
  catchers = [];
}

abbrev pub tryframe_of_current : {V : Type 0} → Action V ℕ
tryframe_of_current = do x ← gets current; found undefined x.try_frame_new

module _ {V : Type 0} where
  unfoldable pub optry : ℕ → Action V (Option ℕ)
  optry addr = do
    x ← gets current
    throw_if (is_set x.try_frame_new)
        (described (text "new try frame requested while last one is unused" ∷ []))
    t ← gets (λ p. p.next_try_frame)
    modify (λ p. record (put_try_frame t new_try_frame p) { next_try_frame = suc t })
    on_current (λ y. record y { try_frame_new = some t })
    pure (some addr)

  unfoldable pub opcatch : Kernel → String → String → ℕ → Action V (Option ℕ)
  opcatch k tag catcher_block_name addr = do
    throw_if (not (is_block k catcher_block_name)) (
        described (
          text "registering undefined handler block '"
          ∷ text catcher_block_name
          ∷ text "' to handle "
          ∷ text tag
          ∷ []))
    t ← tryframe_of_current
    x ← gets (λ p. p.try_frame_at t)
    modify (put_try_frame t (record x { catchers = insert x.catchers tag catcher_block_name }))
    pure (some addr)

  unfoldable pub openter : Kernel → String → ℕ → Action V (Option ℕ)
  unfolding adjust_jump_base_for_block
  openter k block_name addr = do
    throw_if (not (is_block k block_name))
        (described (text "cannot enter undefined block: " ∷ text block_name ∷ []))
    s ← this_stack
    block_address ← adjust_jump_base_for_block k s block_name
    t ← tryframe_of_current
    f ← back s
    x ← gets (λ p. p.try_frame_at t)
    modify (
        put_try_frame t (record x {
          return_address = some addr;
          associated_frame = some f;
          block_name = block_name;
        }))
    on_current (λ y. record y { try_frame_new = none; tryframes = t ∷ y.tryframes })
    pure block_address

  -- The last try frame, which is taken off.
  abbrev pub pop_try_frame : List ℕ → Action V ℕ
  pop_try_frame [] = fail (described (text "bad leave: no block has been entered" ∷ []))
  pop_try_frame (t ∷ ts) = do on_current (λ y. record y { tryframes = ts }); pure t

  unfoldable pub opleave : Kernel → Action V (Option ℕ)
  unfolding adjust_jump_base_for
  opleave k = do
    x ← gets current
    t ← pop_try_frame x.tryframes
    tryframe ← gets (λ p. p.try_frame_at t)
    s ← this_stack
    when (not (is_nil x.frames)) (resume_caller k s)
    pure tryframe.return_address

  -- What `throw` makes of a value: `as_exception` is the dynamic cast, and `type_of` the type of
  -- a value that is no exception, which an exception then wraps.
  module _ (as_exception : Value V → Option (Thrown V)) (type_of : Value V → String) where
    abbrev pub thrown_by : Pointer V → Option (Thrown V) → Thrown V
    thrown_by v (some ex) = ex
    thrown_by none none = record { tag = ""; description = []; value = none }
    thrown_by (some v) none = record { tag = type_of v; description = []; value = some v }

    abbrev pub cast : Pointer V → Option (Thrown V)
    cast none = none
    cast (some v) = as_exception v

    unfoldable pub opthrow : Place → Action V (Option ℕ)
    opthrow source = do
      x ← read_place source
      throw_if (is_null x.value) (described (text "throw from null register" ∷ []))
      v ← give_place source
      fail (exception (thrown_by v (cast v)))

  -- The exception that was caught, as a value in the target, or dropped.
  unfoldable pub opdraw : (Thrown V → Value V) → Option Place → ℕ → Action V (Option ℕ)
  opdraw to_value none addr = do on_current (λ y. record y { caught = none }); pure (some addr)
  opdraw to_value (some target) addr = do
    x ← gets current
    ex ← found undefined x.caught
    on_current (λ y. record y { caught = none })
    assign_place target (some (to_value ex))
    pure (some addr)
