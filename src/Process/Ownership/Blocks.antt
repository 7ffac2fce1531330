-- ===== src/Process/Ownership/Blocks.antt =====
-- Blocks and throwing, in src/process/instr/tcmechanism.cpp, keep the invariant of the frames.
use Prim.Native.String.{String}
use wudoovm.Common.{ℕ, refl, Option, none, some, List, [], ◌∷◌}
use wudoovm.Kernel.Value.{Value}
use wudoovm.Process.Code.{Kernel}
use wudoovm.Process.State.{Stack, Place, Thrown, TryFrame}
use wudoovm.Process.Action.{modify, put_try_frame}
use wudoovm.Process.Blocks
use wudoovm.Process.Blocks.{pop_try_frame, tryframe_of_current}
use wudoovm.Process.Ownership.{
  Keeps, Any, bind-Keeps, pure-Keeps, fail-Keeps, found-Keeps, throw_if-Keeps, when-Keeps,
  modify-Keeps, ask-Keeps, same_frames-Keeps, on_current-Keeps,
}
use wudoovm.Process.Ownership.Stacks.{back-Keeps, adjust_jump_base_for_block-Keeps}
use wudoovm.Process.Ownership.Places.{give_place-Keeps, assign_place-Keeps, read_place-Keeps}
use wudoovm.Process.Ownership.Calls.{resume_caller-Keeps}

module _ {V : Type 0} (n : ℕ) where
  put_try_frame-Keeps : (t : ℕ) (x : TryFrame) → Keeps {V = V} n Any (modify (put_try_frame t x))
  put_try_frame-Keeps t x =
      modify-Keeps n _
        (λ p v. record { counted = v.counted; deferred = v.deferred; owned = v.owned })

  pub optry-Keeps : (addr : ℕ) → Keeps {V = V} n Any (Blocks.optry addr)
  unfolding Blocks.optry
  optry-Keeps addr = bind-Keeps n (ask-Keeps n _) λ x _. bind-Keeps n (throw_if-Keeps n _ _) λ u _.
      bind-Keeps n (ask-Keeps n _) λ t _.
        bind-Keeps n
          (modify-Keeps n _
            (λ p v. record { counted = v.counted; deferred = v.deferred; owned = v.owned }))
          λ w _.
            bind-Keeps n
              (on_current-Keeps n _ (λ s. same_frames-Keeps n s _ (λ y. refl) (λ y. refl)))
              λ z _. pure-Keeps n Any _ tt

  tryframe_of_current-Keeps : Keeps {V = V} n Any tryframe_of_current
  tryframe_of_current-Keeps = bind-Keeps n (ask-Keeps n _) λ x _. found-Keeps n Any _ _ (λ a e. tt)

  pub opcatch-Keeps :
      (k : Kernel) (tag block : String) (addr : ℕ)
      → Keeps {V = V} n Any (Blocks.opcatch k tag block addr)
  unfolding Blocks.opcatch
  opcatch-Keeps k tag block addr = bind-Keeps n (throw_if-Keeps n _ _) λ u _.
      bind-Keeps n tryframe_of_current-Keeps λ t _.
        bind-Keeps n (ask-Keeps n _)
          λ x _. bind-Keeps n (put_try_frame-Keeps t _) λ w _. pure-Keeps n Any _ tt

  pub openter-Keeps :
      (k : Kernel) (block : String) (addr : ℕ) → Keeps {V = V} n Any (Blocks.openter k block addr)
  unfolding Blocks.openter
  openter-Keeps k block addr = bind-Keeps n (throw_if-Keeps n _ _) λ u _.
      bind-Keeps n (ask-Keeps n _) λ s _.
        bind-Keeps n (adjust_jump_base_for_block-Keeps n k s block) λ e _.
          bind-Keeps n tryframe_of_current-Keeps λ t _. bind-Keeps n (back-Keeps n s) λ f _.
            bind-Keeps n (ask-Keeps n _) λ x _. bind-Keeps n (put_try_frame-Keeps t _) λ w _.
              bind-Keeps n
                (on_current-Keeps n _ (λ j. same_frames-Keeps n j _ (λ y. refl) (λ y. refl)))
                λ z _. pure-Keeps n Any _ tt

  pop_try_frame-Keeps : (ts : List ℕ) → Keeps {V = V} n Any (pop_try_frame ts)
  pop_try_frame-Keeps [] = fail-Keeps n Any _
  pop_try_frame-Keeps (t ∷ ts) =
      bind-Keeps n (on_current-Keeps n _ (λ j. same_frames-Keeps n j _ (λ y. refl) (λ y. refl)))
        λ z _. pure-Keeps n Any _ tt

  pub opleave-Keeps : (k : Kernel) → Keeps {V = V} n Any (Blocks.opleave k)
  unfolding Blocks.opleave
  opleave-Keeps k = bind-Keeps n (ask-Keeps n _) λ x _.
      bind-Keeps n (pop_try_frame-Keeps (Stack.tryframes x)) λ t _.
        bind-Keeps n (ask-Keeps n _) λ y _. bind-Keeps n (ask-Keeps n _) λ s _.
          bind-Keeps n (when-Keeps n _ _ (resume_caller-Keeps n k s)) λ u _. pure-Keeps n Any _ tt

  pub opthrow-Keeps :
      (as_exception : Value V → Option (Thrown V)) (type_of : Value V → String) (r : Place)
      → Keeps n Any (Blocks.opthrow as_exception type_of r)
  unfolding Blocks.opthrow
  opthrow-Keeps as_exception type_of r = bind-Keeps n (read_place-Keeps n r) λ x _.
      bind-Keeps n (throw_if-Keeps n _ _)
        λ u _. bind-Keeps n (give_place-Keeps n r) λ v _. fail-Keeps n Any _

  pub opdraw-Keeps :
      (to_value : Thrown V → Value V) (r : Option Place) (addr : ℕ)
      → Keeps n Any (Blocks.opdraw to_value r addr)
  unfolding Blocks.opdraw
  opdraw-Keeps to_value none addr =
      bind-Keeps n (on_current-Keeps n _ (λ j. same_frames-Keeps n j _ (λ y. refl) (λ y. refl)))
        λ z _. pure-Keeps n Any _ tt
  opdraw-Keeps to_value (some r) addr = bind-Keeps n (ask-Keeps n _) λ x _.
      bind-Keeps n (found-Keeps n Any _ _ (λ a e. tt)) λ ex _.
        bind-Keeps n (on_current-Keeps n _ (λ j. same_frames-Keeps n j _ (λ y. refl) (λ y. refl)))
          λ z _. bind-Keeps n (assign_place-Keeps n r _) λ w _. pure-Keeps n Any _ tt
