-- ===== src/Process/Ownership/Ticks.antt =====
-- Blocks, the dispatch of instructions and whole ticks keep the invariant of the frames, so it
-- holds in every process that a new one becomes: src/process/instr/tcmechanism.cpp and
-- src/process.cpp.
use wudoovm.Common.{
  ℕ, refl, sym, subst, Bool, true, false, ◌&&◌, ◌||◌, Option, none, some, if◌then◌else◌, Bool-cases,
  inl, inr,
}
use wudoovm.Common.Outcome.{Outcome, ok, unfinished}
use wudoovm.Codec.Operands.{RegisterAccess}
use wudoovm.Process.Code.{Kernel}
use wudoovm.Process.State.{Process, Stack, Thrown, Place}
use wudoovm.Process.Action.{
  Action, Fault, exception, thrown_text, missing, undefined, then_run, pure, when, found, current,
  ◌>>=◌,
}
use wudoovm.Process.Frames.{is_nil, is_set}
use wudoovm.Process.Calls
use wudoovm.Process.Calls.{this_stack}
use wudoovm.Process.Tick.{
  Instruction, frame, allocate_registers, call, tailcall, defer, ret, try, catch, draw, enter,
  throw, leave, move, swap, delete, isnull, jump, halt, nop, Values, dispatch,
  fetch_register_or_void, catch_with, runs, run_instruction, raise, handle, go_on, finish, tick,
  is_halted, set_pointer, is_thrown,
}
use wudoovm.Process.Ownership.{
  OwnsFrames, OwnsAt, IsValid, After, Keeps, Any, bind-Keeps, pure-Keeps, found-Keeps, when-Keeps,
  modify-Keeps, ask-Keeps, same_frames-Keeps, on_stack-Keeps, on_current-Keeps,
}
use wudoovm.Process.Ownership.Places.{fetch_register-Keeps}
use wudoovm.Process.Ownership.Pushes.{prepare_frame-IsValid}
use wudoovm.Process.Ownership.Calls.{
  opallocate_registers-Keeps, opcall-Keeps, optailcall-Keeps, opdefer-Keeps, opreturn-Keeps,
}
use wudoovm.Process.Ownership.Blocks.{
  optry-Keeps, opcatch-Keeps, openter-Keeps, opleave-Keeps, opthrow-Keeps, opdraw-Keeps,
}
use wudoovm.Process.Ownership.Unwinding.{unwind-Keeps}
use wudoovm.Process.Ownership.Registers.{
  opmove-Keeps, opswap-Keeps, opdelete-Keeps, opisnull-Keeps, opjump-Keeps,
}
use wudoovm.Process.Places.{fetch_register}

-- The invariant in a process whose number of frames may grow.
abbrev pub Preserves : {V A : Type 0} → Action V A → Type 0
Preserves m = (p : Process _) → IsValid p → IsValid (m p).1

IsValid-of_owns : {V : Type 0} (n : ℕ) (p : Process V) → OwnsAt n p → IsValid p
IsValid-of_owns n p v = subst (λ m. OwnsAt m p) (sym v.counted) v

module _ {V A : Type 0} where
  IsValid-of_After :
      (n : ℕ) (Q : A → Type 0) (r : Outcome (Fault V) A × Process V) → After n Q r → IsValid r.1
  IsValid-of_After n Q (ok a, p) h = IsValid-of_owns n p h.0
  IsValid-of_After n Q (Outcome.throw e, p) h = IsValid-of_owns n p h
  IsValid-of_After n Q (unfinished, p) h = IsValid-of_owns n p h

  pub of_Keeps : (m : Action V A) → ((n : ℕ) → Keeps n Any m) → Preserves m
  of_Keeps m h p v = IsValid-of_After p.next_frame Any (m p) (Keeps.run (h p.next_frame) p v)

module _ {V A B : Type 0} where
  bind-IsValid :
      (f : A → Action V B) (r : Outcome (Fault V) A × Process V)
      → IsValid r.1
      → ((a : A) → Preserves (f a))
      → IsValid (then_run r f).1
  bind-IsValid f (ok a, p) v h = h a p v
  bind-IsValid f (Outcome.throw e, p) v h = v
  bind-IsValid f (unfinished, p) v h = v

  bind-Preserves :
      (m : Action V A) (f : A → Action V B)
      → Preserves m
      → ((a : A) → Preserves (f a))
      → Preserves (m >>= f)
  unfolding ◌>>=◌
  bind-Preserves m f h k p v = bind-IsValid f (m p) (h p v) k

module _ {V : Type 0} (values : Values V) (k : Kernel) where
  fetch_register_or_void-Keeps :
      (n : ℕ) (reg : Option RegisterAccess) → Keeps n Any (fetch_register_or_void values k reg)
  unfolding fetch_register_or_void
  fetch_register_or_void-Keeps n none = pure-Keeps n Any _ tt
  fetch_register_or_void-Keeps n (some reg) =
      bind-Keeps n (fetch_register-Keeps n _ false reg) λ r _. pure-Keeps n Any _ tt

  two_registers-Keeps :
      (n : ℕ) (a b : RegisterAccess) {f : Place → Place → Action V (Option ℕ)}
      → ((t r : Place) → Keeps n Any (f t r))
      → Keeps n Any (do
        t ← fetch_register (Values.as_integer values) false a
        r ← fetch_register (Values.as_integer values) false b
        f t r)
  two_registers-Keeps n a b h =
      bind-Keeps n (fetch_register-Keeps n _ false a)
        λ t _. bind-Keeps n (fetch_register-Keeps n _ false b) λ r _. h t r

  -- Every instruction keeps the invariant, also where it throws.
  pub dispatch-Preserves :
      (i : Instruction V) (here addr : ℕ) → Preserves (dispatch values k i here addr)
  unfolding dispatch Calls.opframe
  dispatch-Preserves (frame m) here addr = bind-Preserves _ _ (of_Keeps _ (λ n. ask-Keeps n _)) λ s.
      bind-Preserves _ _ (prepare_frame-IsValid s m) λ f. of_Keeps _ (λ n. pure-Keeps n Any _ tt)
  dispatch-Preserves (allocate_registers m) here addr =
      of_Keeps _ (λ n. opallocate_registers-Keeps n m addr)
  dispatch-Preserves (call reg name) here addr =
      of_Keeps _
        (λ n. bind-Keeps n (fetch_register_or_void-Keeps n reg) λ r _. opcall-Keeps n k r name addr)
  dispatch-Preserves (tailcall name) here addr = of_Keeps _ (λ n. optailcall-Keeps n k name addr)
  dispatch-Preserves (defer name) here addr = of_Keeps _ (λ n. opdefer-Keeps n k name addr)
  dispatch-Preserves ret here addr = of_Keeps _ (λ n. opreturn-Keeps n k here)
  dispatch-Preserves try here addr = of_Keeps _ (λ n. optry-Keeps n addr)
  dispatch-Preserves (catch tag block) here addr =
      of_Keeps _ (λ n. opcatch-Keeps n k tag block addr)
  dispatch-Preserves (draw reg) here addr =
      of_Keeps _
        (λ n. bind-Keeps n (fetch_register_or_void-Keeps n reg) λ r _. opdraw-Keeps n _ r addr)
  dispatch-Preserves (enter block) here addr = of_Keeps _ (λ n. openter-Keeps n k block addr)
  dispatch-Preserves (throw reg) here addr =
      of_Keeps _
        (λ n. bind-Keeps n (fetch_register-Keeps n _ false reg) λ r _. opthrow-Keeps n _ _ r)
  dispatch-Preserves leave here addr = of_Keeps _ (λ n. opleave-Keeps n k)
  dispatch-Preserves (move target source) here addr = of_Keeps _ (λ n.
      bind-Keeps n (fetch_register_or_void-Keeps n target)
        λ t _. bind-Keeps n (fetch_register-Keeps n _ false source) λ r _. opmove-Keeps n t r addr)
  dispatch-Preserves (swap target source) here addr =
      of_Keeps _ (λ n. two_registers-Keeps n target source (λ t r. opswap-Keeps n t r addr))
  dispatch-Preserves (delete target) here addr =
      of_Keeps _
        (λ n. bind-Keeps n (fetch_register-Keeps n _ false target) λ t _. opdelete-Keeps n t addr)
  dispatch-Preserves (isnull target source) here addr =
      of_Keeps _ (λ n. two_registers-Keeps n target source (λ t r. opisnull-Keeps n _ t r addr))
  dispatch-Preserves (jump offset) here addr = of_Keeps _ (λ n. opjump-Keeps n offset here)
  dispatch-Preserves halt here addr = of_Keeps _ (λ n.
      bind-Keeps n (on_current-Keeps n _ (λ j. same_frames-Keeps n j _ (λ y. refl) (λ y. refl)))
        λ u _. pure-Keeps n Any _ tt)
  dispatch-Preserves nop here addr = of_Keeps _ (λ n. pure-Keeps n Any _ tt)

module _ {V : Type 0} where
  set_pointer-Keeps : (n s : ℕ) (addr : Option ℕ) → Keeps {V = V} n Any (set_pointer s addr)
  set_pointer-Keeps n s addr = same_frames-Keeps n s _ (λ y. refl) (λ y. refl)

  pub raise-Keeps : (n : ℕ) (e : Thrown V) → Keeps n Any (raise e)
  unfolding raise
  raise-Keeps n e = on_current-Keeps n _ (λ j. same_frames-Keeps n j _ (λ y. refl) (λ y. refl))

  catch_with-IsValid :
      (s : ℕ) (r : Outcome (Fault V) (Option ℕ) × Process V)
      → IsValid r.1
      → IsValid (catch_with s r).1
  unfolding catch_with
  catch_with-IsValid s (ok addr, p) v =
      of_Keeps (set_pointer s addr) (λ n. set_pointer-Keeps n s addr) p v
  catch_with-IsValid s (Outcome.throw (exception e), p) v =
      of_Keeps (raise e) (λ n. raise-Keeps n e) p v
  catch_with-IsValid s (Outcome.throw (thrown_text t), p) v = v
  catch_with-IsValid s (Outcome.throw missing, p) v = v
  catch_with-IsValid s (Outcome.throw undefined, p) v = v
  catch_with-IsValid s (unfinished, p) v = v

  drop_frame-Owns :
      (n : ℕ) (c : Bool) (x : Stack V)
      → OwnsFrames n x
      → OwnsFrames n (if c then record x { frame_new = none } else x)
  drop_frame-Owns n true x h = record {
    allocated = h.allocated;
    distinct = h.distinct;
    prepared = tt;
    bounded = h.bounded;
  }
  drop_frame-Owns n false x h = h

module _ {V : Type 0} (k : Kernel) (d : ℕ → Action V (Option ℕ))
    (h : (a : ℕ) → Preserves (d a)) where
  run_instruction-Preserves : Preserves (run_instruction k d)
  unfolding when pure
  run_instruction-Preserves p v = elim (Bool-cases (runs (Stack.current_state (current p)))) [
    | inl e ↦ rw e (
        catch_with-IsValid p.stack _ (
          bind-Preserves (found undefined (Stack.instruction_pointer (current p))) d
            (of_Keeps _ (λ n. found-Keeps n Any _ _ (λ a o. tt))) h p v))
    | inr e ↦ rw e v
  ]

  handle-Keeps : (n : ℕ) → Keeps n Any (handle k d)
  handle-Keeps n =
      bind-Keeps n (ask-Keeps n _)
        λ x _. bind-Keeps n (ask-Keeps n _) λ s _. when-Keeps n _ _ (unwind-Keeps n k s)

  go_on-Keeps : (n : ℕ) (previous : Option ℕ) → Keeps n Any (go_on k d previous)
  go_on-Keeps n previous = bind-Keeps n (ask-Keeps n _) λ x _.
      bind-Keeps n
        (when-Keeps n _ _
          (on_current-Keeps n _ (λ j. same_frames-Keeps n j _ (λ y. refl) (λ y. refl))))
        λ u _.
          bind-Keeps n
            (on_current-Keeps n _ (λ j.
              on_stack-Keeps n j _
                (λ y g. drop_frame-Owns n (is_thrown y.thrown && is_set y.frame_new) y g)))
            λ w _. bind-Keeps n (handle-Keeps n) λ z _. ask-Keeps n _

  finish-Keeps : (n : ℕ) → Keeps n Any (finish k d)
  finish-Keeps n =
      bind-Keeps n
        (modify-Keeps n _
          (λ p v. record { counted = v.counted; deferred = v.deferred; owned = v.owned }))
        λ u _. pure-Keeps n Any _ tt

  after_run :
      (n : ℕ) (c e : Bool) (a previous : Option ℕ)
      → Keeps n Any (if c then finish k d else if e then pure a else go_on k d previous)
  after_run n true e a previous = finish-Keeps n
  after_run n false true a previous = pure-Keeps n Any _ tt
  after_run n false false a previous = go_on-Keeps n previous

  -- A tick keeps the invariant, whatever instructions do that keep it.
  pub tick-Preserves : Preserves (tick k d)
  unfolding tick
  tick-Preserves = bind-Preserves _ _ (of_Keeps _ (λ n. ask-Keeps n _)) λ x.
      bind-Preserves _ _ run_instruction-Preserves λ u.
        bind-Preserves _ _ (of_Keeps _ (λ n. ask-Keeps n _)) λ p. of_Keeps _ (λ n.
          after_run n
            (is_halted (Stack.current_state (current p)) || is_nil (Stack.frames (current p)))
            p.is_suspended _ x.instruction_pointer)
