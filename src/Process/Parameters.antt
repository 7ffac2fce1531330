-- ===== src/Process/Parameters.antt =====
-- Parameters in the frame that is prepared, and arguments in the one that runs: the methods `opparam`,
-- `oppamv` and `oparg` of src/process/instr/calls.cpp. No opcode is dispatched to them; a program
-- writes parameters and reads arguments by moves between registers.
use Prim.Native.String.{String}
use wudoovm.Common.{ℕ, Option, none, some, [], ◌∷◌, leb}
use wudoovm.Kernel.Value.{Value, Pointer, copy_value}
use wudoovm.Kernel.RegisterSet
use wudoovm.Kernel.RegisterSet.{RegisterSet}
use wudoovm.Process.State.{Place, text, number}
use wudoovm.Process.Action.{
  Action, described, pure, gets, modify, throw_if, lift, put_frame, ◌>>=◌, ◌>>◌,
}
use wudoovm.Process.Frames.{frame_of, moved}
use wudoovm.Process.Places.{back_frame, new_frame_of_current, assign_place, give_place}

abbrev pub out_of_arguments : String
out_of_arguments =
    "parameter register index out of bounds (greater than arguments set size) while adding parameter"

module _ {V : Type 0} where
  abbrev pub set_arguments : ℕ → RegisterSet V → Action V (Unit {0})
  set_arguments f rs = modify (λ p. put_frame f (record (p.frame_at f) { arguments = rs }) p)

  -- `arguments->set(index, v); arguments->clear(index);`
  abbrev pub put_argument : ℕ → ℕ → Pointer V → Action V (Unit {0})
  put_argument f index v = do
    x ← frame_of f
    cells ← gets (λ p. p.cells)
    (cells', rs) ← lift (RegisterSet.set_value cells x.arguments index v)
    modify (λ p. record p { cells = cells' })
    set_arguments f rs
    rs' ← lift (RegisterSet.clear rs index)
    set_arguments f rs'

  -- The source is the value that the operand was found to name.
  unfoldable pub opparam : (V → V) → ℕ → Value V → ℕ → Action V (Option ℕ)
  opparam copy index source addr = do
    f ← new_frame_of_current
    x ← frame_of f
    throw_if (leb x.arguments.registerset_size index) (described (text out_of_arguments ∷ []))
    put_argument f index (some (copy_value copy source))
    pure (some addr)

  unfoldable pub oppamv : ℕ → Place → ℕ → Action V (Option ℕ)
  oppamv index source addr = do
    f ← new_frame_of_current
    x ← frame_of f
    throw_if (leb x.arguments.registerset_size index) (described (text out_of_arguments ∷ []))
    v ← give_place source
    put_argument f index v
    y ← frame_of f
    rs ← lift (RegisterSet.flag y.arguments index moved)
    set_arguments f rs
    pure (some addr)

  abbrev pub assign_target : Option Place → Pointer V → Action V (Unit {0})
  assign_target none v = pure tt
  assign_target (some r) v = assign_place r v

  unfoldable pub oparg : Option Place → ℕ → ℕ → Action V (Option ℕ)
  unfolding assign_place
  oparg target index addr = do
    f ← back_frame
    x ← frame_of f
    throw_if (leb x.arguments.registerset_size index) (
        described
          (text "invalid read: read from argument register out of bounds: " ∷ number index ∷ []))
    (rs, argument) ← lift (RegisterSet.pop x.arguments index)
    set_arguments f rs
    assign_target target argument
    pure (some addr)
