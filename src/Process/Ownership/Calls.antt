-- ===== src/Process/Ownership/Calls.antt =====
-- Calls and returns, in src/process/instr/calls.cpp, keep the invariant of the frames.
use Prim.Native.String.{String}
use wudoovm.Common.{ℕ, refl, Bool, true, false, Option, none, some, ◌-◌, if◌then◌else◌}
use wudoovm.Kernel.Value.{Pointer}
use wudoovm.Process.Code.{Kernel, is_native_function}
use wudoovm.Process.State.{Stack, Place, running}
use wudoovm.Process.Action.{Action, on_current, pure}
use wudoovm.Process.Unwinding.{is_running}
use wudoovm.Process.Calls.{
  this_stack, opallocate_registers, require_frame, fill_frame, push_frame, call_native,
  call_foreign, call_by, opcall, suspend_on_frame_pop, require_on_frame_pop, tail_to, unless_left,
  optailcall, push_deferred, opdefer, take_return_value, place_return_value, resume_caller,
  return_now, opreturn,
}
use wudoovm.Process.Ownership.{
  Keeps, Any, bind-Keeps, pure-Keeps, throw_if-Keeps, when-Keeps, put_frame-Keeps, modify-Keeps,
  frame_of-Keeps, ask-Keeps, same_frames-Keeps, no_frame_new-Keeps, on_current-Keeps, Below-append,
}
use wudoovm.Process.Ownership.Stacks.{
  set_state-Keeps, back-Keeps, set_return_value-Keeps, adjust_jump_base_for-Keeps,
  register_deferred_calls-Keeps, pop-Keeps,
}
use wudoovm.Process.Ownership.Pushes.{push_prepared_frame-Keeps}
use wudoovm.Process.Ownership.Places.{
  back_frame-Keeps, new_frame_of_current-Keeps, assign_place-Keeps,
}
use wudoovm.Process.Ownership.Unwinding.{switch_to_top-Owns}
use wudoovm.Process.Ownership.Parameters.{set_arguments-Keeps}

module _ {V : Type 0} (n : ℕ) where
  pub opallocate_registers-Keeps : (m addr : ℕ) → Keeps {V = V} n Any (opallocate_registers m addr)
  unfolding opallocate_registers
  opallocate_registers-Keeps m addr =
      bind-Keeps n (back_frame-Keeps n) λ f _.
        bind-Keeps n (put_frame-Keeps n f _ (λ p v. v.deferred f)) λ u _. pure-Keeps n Any _ tt

  require_frame-Keeps : Keeps {V = V} n Any require_frame
  require_frame-Keeps = bind-Keeps n (ask-Keeps n _) λ x _. throw_if-Keeps n _ _

  fill_frame-Keeps :
      (name : String) (a : Option ℕ) (r : Option Place) → Keeps {V = V} n Any (fill_frame name a r)
  fill_frame-Keeps name a r =
      bind-Keeps n (new_frame_of_current-Keeps n) λ f _. put_frame-Keeps n f _ (λ p v. v.deferred f)

  this_stack-Keeps : Keeps {V = V} n Any this_stack
  this_stack-Keeps = ask-Keeps n _

  push_frame-Keeps : Keeps {V = V} n Any push_frame
  unfolding push_frame
  push_frame-Keeps = bind-Keeps n this_stack-Keeps λ s _. push_prepared_frame-Keeps n s

  no_prepared-Keeps : Keeps {V = V} n Any (on_current (λ x. record x { frame_new = none }))
  no_prepared-Keeps = on_current-Keeps n _ (λ s. no_frame_new-Keeps n s _ (λ x. refl) (λ x. refl))

  call_by-Keeps :
      (k : Kernel) (native : Bool) (a : Option ℕ) (name : String) (r : Option Place)
      → Keeps {V = V} n Any (call_by k native a name r)
  unfolding call_by call_native call_foreign
  call_by-Keeps k true a name r = bind-Keeps n this_stack-Keeps λ s _.
      bind-Keeps n (adjust_jump_base_for-Keeps n k s name) λ e _.
        bind-Keeps n require_frame-Keeps λ u _.
          bind-Keeps n (fill_frame-Keeps name a r)
            λ t _. bind-Keeps n push_frame-Keeps λ w _. pure-Keeps n Any _ tt
  call_by-Keeps k false a name r = bind-Keeps n require_frame-Keeps λ u _.
      bind-Keeps n (fill_frame-Keeps name a r) λ t _.
        bind-Keeps n
          (modify-Keeps n _
            (λ p w. record { counted = w.counted; deferred = w.deferred; owned = w.owned }))
          λ w _. bind-Keeps n no_prepared-Keeps λ z _. pure-Keeps n Any _ tt

  pub opcall-Keeps :
      (k : Kernel) (r : Option Place) (name : String) (addr : ℕ)
      → Keeps {V = V} n Any (opcall k r name addr)
  unfolding opcall
  opcall-Keeps k r name addr =
      bind-Keeps n (throw_if-Keeps n _ _)
        λ u _. call_by-Keeps k (is_native_function k name) (some addr) name r

  suspend_on_frame_pop-Keeps : (k : Kernel) (s : ℕ) → Keeps {V = V} n Any (suspend_on_frame_pop k s)
  suspend_on_frame_pop-Keeps k s = bind-Keeps n (register_deferred_calls-Keeps n k s) λ u _.
      bind-Keeps n (set_state-Keeps n s _) λ t _. bind-Keeps n (ask-Keeps n _) λ order _.
        bind-Keeps n (modify-Keeps n _ (switch_to_top-Owns n order)) λ w _. pure-Keeps n Any _ tt

  require_on_frame_pop-Keeps : (s : ℕ) → Keeps {V = V} n Any (require_on_frame_pop s)
  require_on_frame_pop-Keeps s = bind-Keeps n (ask-Keeps n _) λ x _. throw_if-Keeps n _ _

  tail_to-Keeps : (k : Kernel) (s : ℕ) (name : String) → Keeps {V = V} n Any (tail_to k s name)
  tail_to-Keeps k s name = bind-Keeps n (require_on_frame_pop-Keeps s) λ u _.
      bind-Keeps n (set_state-Keeps n s running) λ t _. bind-Keeps n (throw_if-Keeps n _ _) λ w _.
        bind-Keeps n (throw_if-Keeps n _ _) λ z _. bind-Keeps n (back-Keeps n s) λ b _.
          bind-Keeps n (new_frame_of_current-Keeps n) λ f _.
            bind-Keeps n (frame_of-Keeps n f) λ x _.
              bind-Keeps n (set_arguments-Keeps n b x.arguments)
                λ i _. bind-Keeps n no_prepared-Keeps λ j _. adjust_jump_base_for-Keeps n k s name

  unless_left-Keeps :
      (left : Bool) (addr : ℕ) (rest : Action V (Option ℕ))
      → Keeps n Any rest
      → Keeps n Any (unless_left left addr rest)
  unless_left-Keeps true addr rest h = pure-Keeps n Any _ tt
  unless_left-Keeps false addr rest h = h

  if_running-Keeps :
      (c : Bool) (m : Action V Bool) → Keeps n Any m → Keeps n Any (if c then m else pure false)
  if_running-Keeps true m h = h
  if_running-Keeps false m h = pure-Keeps n Any _ tt

  pub optailcall-Keeps :
      (k : Kernel) (name : String) (addr : ℕ) → Keeps {V = V} n Any (optailcall k name addr)
  unfolding optailcall
  optailcall-Keeps k name addr = bind-Keeps n this_stack-Keeps λ s _.
      bind-Keeps n (ask-Keeps n _) λ x _.
        bind-Keeps n
          (if_running-Keeps (is_running (Stack.current_state x)) _ (suspend_on_frame_pop-Keeps k s))
          λ left _. unless_left-Keeps left (addr - 1) _ (tail_to-Keeps k s name)

  -- The frame that is deferred is an allocated one.
  push_deferred-Keeps : (name : String) → Keeps {V = V} n Any (push_deferred name)
  unfolding push_deferred
  push_deferred-Keeps name = bind-Keeps n require_frame-Keeps λ u _.
      bind-Keeps n (fill_frame-Keeps name none none) λ t _.
        bind-Keeps n (new_frame_of_current-Keeps n) λ f h. bind-Keeps n no_prepared-Keeps λ w _.
          bind-Keeps n (back_frame-Keeps n)
            λ b _. put_frame-Keeps n b _ (λ p v. Below-append n _ _ (v.deferred b) (h, tt))

  pub opdefer-Keeps :
      (k : Kernel) (name : String) (addr : ℕ) → Keeps {V = V} n Any (opdefer k name addr)
  unfolding opdefer
  opdefer-Keeps k name addr =
      bind-Keeps n (throw_if-Keeps n _ _)
        λ u _. bind-Keeps n (push_deferred-Keeps name) λ t _. pure-Keeps n Any _ tt

  take_return_value-Keeps : (s : ℕ) (r : Option Place) → Keeps {V = V} n Any (take_return_value s r)
  take_return_value-Keeps s none = pure-Keeps n Any _ tt
  take_return_value-Keeps s (some r) = bind-Keeps n (ask-Keeps n _) λ x _.
      bind-Keeps n (on_current-Keeps n _ (λ t. same_frames-Keeps n t _ (λ y. refl) (λ y. refl)))
        λ u _. pure-Keeps n Any _ tt

  place_return_value-Keeps :
      (r : Option Place) (v : Pointer V) (b : Bool) → Keeps {V = V} n Any (place_return_value r v b)
  place_return_value-Keeps (some r) (some v) true = assign_place-Keeps n r (some v)
  place_return_value-Keeps (some r) (some v) false = pure-Keeps n Any _ tt
  place_return_value-Keeps (some r) none b = pure-Keeps n Any _ tt
  place_return_value-Keeps none v b = pure-Keeps n Any _ tt

  pub resume_caller-Keeps : (k : Kernel) (s : ℕ) → Keeps {V = V} n Any (resume_caller k s)
  resume_caller-Keeps k s = bind-Keeps n (back-Keeps n s) λ f _.
      bind-Keeps n (frame_of-Keeps n f) λ x _.
        bind-Keeps n (adjust_jump_base_for-Keeps n k s x.function_name) λ e _. pure-Keeps n Any _ tt

  return_now-Keeps : (k : Kernel) (s : ℕ) → Keeps {V = V} n Any (return_now k s)
  return_now-Keeps k s = bind-Keeps n (require_on_frame_pop-Keeps s) λ u _.
      bind-Keeps n (back-Keeps n s) λ f _. bind-Keeps n (frame_of-Keeps n f) λ x _.
        bind-Keeps n (take_return_value-Keeps s x.return_register) λ v _.
          bind-Keeps n (set_state-Keeps n s running) λ t _. bind-Keeps n (pop-Keeps n s) λ g _.
            bind-Keeps n (ask-Keeps n _) λ y _.
              bind-Keeps n (place_return_value-Keeps x.return_register v _) λ w _.
                bind-Keeps n (when-Keeps n _ _ (resume_caller-Keeps k s))
                  λ z _. pure-Keeps n Any _ tt

  pub opreturn-Keeps : (k : Kernel) (addr : ℕ) → Keeps {V = V} n Any (opreturn k addr)
  unfolding opreturn
  opreturn-Keeps k addr = bind-Keeps n this_stack-Keeps λ s _. bind-Keeps n (ask-Keeps n _) λ x _.
      bind-Keeps n (throw_if-Keeps n _ _) λ u _.
        bind-Keeps n
          (if_running-Keeps (is_running (Stack.current_state x)) _
            (bind-Keeps n (set_return_value-Keeps n s) λ t _. suspend_on_frame_pop-Keeps k s))
          λ left _. unless_left-Keeps left addr _ (return_now-Keeps k s)
