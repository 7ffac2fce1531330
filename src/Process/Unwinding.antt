-- ===== src/Process/Unwinding.antt =====
-- Unwinding in src/process/stack.cpp: the search for a catcher, and the two phases in which the
-- frames above the one that entered the block are left, first for the sake of their deferred calls.
use Prim.Native.String.{String}
use mathlib.Core.List.{reverse}
use wudoovm.Common.{
  ℕ, zero, suc, Bool, true, false, not, Option, none, some, List, [], ◌∷◌, take, ◌==◌,
  if◌then◌else◌,
}
use wudoovm.Process.Code.{Kernel, lookup, count}
use wudoovm.Process.State.{
  Process, Stack, State, running, suspended_by_deferred_during_stack_unwinding, Thrown, TryFrame,
  uninitialised, suspended_by_deferred_on_frame_pop, halted, text,
}
use wudoovm.Process.Action.{
  Action, described, missing, undefined, pure, gets, modify, throw_if, found, on_stack, ◌>>=◌, ◌>>◌,
}
use wudoovm.Process.Frames.{
  stack_of, push_order, set_state, adjust_jump_base_for_block, register_deferred_calls_from, pop,
}

abbrev pub is_running : State → Bool
is_running running = true
is_running uninitialised = false
is_running suspended_by_deferred_on_frame_pop = false
is_running suspended_by_deferred_during_stack_unwinding = false
is_running halted = false

abbrev pub is_unwinding : State → Bool
is_unwinding suspended_by_deferred_during_stack_unwinding = true
is_unwinding running = false
is_unwinding uninitialised = false
is_unwinding suspended_by_deferred_on_frame_pop = false
is_unwinding halted = false

-- Whether a frame is the one that a pointer points to.
abbrev pub is_frame : Option ℕ → ℕ → Bool
is_frame none f = false
is_frame (some g) f = f == g

-- The loop that counts the frames above the one that is sought, from the back of the frames. The
-- bottom frame is not compared.
unfoldable pub frames_above : Option ℕ → ℕ → List ℕ → ℕ
frames_above frame f [] = 0
frames_above frame f (g ∷ fs) = if is_frame frame f then 0 else suc (frames_above frame g fs)

-- With no frame `size() - 1` wraps, and `frames.at` throws `std::out_of_range`: `none`.
unfoldable pub distance_to : Option ℕ → List ℕ → Option ℕ
unfolding frames_above
distance_to frame [] = none
distance_to frame (f ∷ fs) = some (frames_above frame f fs)

-- `while (tryframes.back().get() != tframe) tryframes.pop_back();`, where the empty vector
-- has no back.
unfoldable pub try_frames_from : ℕ → List ℕ → Option (List ℕ)
try_frames_from tframe [] = none
try_frames_from tframe (t ∷ ts) = if t == tframe then some (t ∷ ts) else try_frames_from tframe ts

-- The loop of `find_catch_frame`, from the last try frame.
unfoldable pub find_catcher : (ℕ → TryFrame) → String → List ℕ → Option ℕ
find_catcher try_frame_at type [] = none
find_catcher try_frame_at type (t ∷ ts) =
    if count (TryFrame.catchers (try_frame_at t)) type
    then some t
    else find_catcher try_frame_at type ts

module _ {V : Type 0} where
  -- `parent_process->stack` becomes the top of the order, if there is one.
  abbrev pub switch_to_top : List ℕ → Process V → Process V
  switch_to_top [] p = p
  switch_to_top (s ∷ order) p = record p { stack = s; stacks_order = order }

  -- `register_deferred_calls_from` for each of some frames.
  unfoldable pub register_frames : Kernel → ℕ → List ℕ → Action V (Unit {0})
  unfolding register_deferred_calls_from
  register_frames k s [] = pure tt
  register_frames k s (f ∷ fs) = do register_deferred_calls_from k s f; register_frames k s fs

  unfoldable pub pop_frames : ℕ → ℕ → Action V (Unit {0})
  unfolding pop
  pop_frames s zero = pure tt
  pop_frames s (suc n) = do _ ← pop s; pop_frames s n

  -- The first phase, of a stack that runs: it switches to the stacks of the deferred calls.
  unfoldable pub suspend_for_deferred : Kernel → ℕ → List ℕ → Action V (Unit {0})
  unfolding set_state register_frames
  suspend_for_deferred k s leaving = do
    set_state s suspended_by_deferred_during_stack_unwinding
    modify (push_order s)
    register_frames k s leaving
    modify (λ p. switch_to_top p.stacks_order p)

  -- The second phase, when the deferred calls are over.
  unfoldable pub leave_frames : ℕ → ℕ → Action V (Unit {0})
  unfolding set_state pop_frames
  leave_frames s distance = do
    x ← stack_of s
    throw_if (not (is_unwinding x.current_state))
        (described (text "stack left in an invalid state during unwinding" ∷ []))
    set_state s running
    pop_frames s distance

  unfoldable pub unwind_by : Kernel → ℕ → Stack V → ℕ → Action V (Unit {0})
  unfolding suspend_for_deferred leave_frames
  unwind_by k s x distance =
      if is_running x.current_state
      then suspend_for_deferred k s (reverse (take distance x.frames))
      else leave_frames s distance

  -- After the push the order is not empty, so the first phase always returns.
  unfoldable pub unwind_call_stack_to : Kernel → ℕ → Option ℕ → Action V (Unit {0})
  unfolding unwind_by distance_to
  unwind_call_stack_to k s frame = do
    x ← stack_of s
    distance ← found missing (distance_to frame x.frames)
    unwind_by k s x distance

  unfoldable pub unwind_try_stack_to : ℕ → ℕ → Action V (Unit {0})
  unfolding try_frames_from
  unwind_try_stack_to s tframe = do
    x ← stack_of s
    ts ← found undefined (try_frames_from tframe x.tryframes)
    on_stack s (λ y. record y { tryframes = ts })

  unfoldable pub adjust_instruction_pointer : Kernel → ℕ → ℕ → String → Action V (Unit {0})
  unfolding adjust_jump_base_for_block
  adjust_instruction_pointer k s tframe handler_found_for_type = do
    t ← gets (λ p. p.try_frame_at tframe)
    catcher_name ← found missing (lookup t.catchers handler_found_for_type)
    entry_point ← adjust_jump_base_for_block k s catcher_name
    on_stack s (λ y. record y { instruction_pointer = entry_point })

  unfoldable pub unwind_to : Kernel → ℕ → ℕ → String → Action V (Unit {0})
  unfolding adjust_instruction_pointer unwind_call_stack_to unwind_try_stack_to
  unwind_to k s tframe handler_found_for_type = do
    adjust_instruction_pointer k s tframe handler_found_for_type
    t ← gets (λ p. p.try_frame_at tframe)
    unwind_call_stack_to k s t.associated_frame
    unwind_try_stack_to s tframe

  -- The exception that is in flight: thrown when the stack runs, else already caught.
  abbrev pub in_flight : Stack V → Option (Thrown V)
  in_flight x = if is_running x.current_state then x.thrown else x.caught

  -- The try frame, and the type of the exception.
  unfoldable pub find_catch_frame : ℕ → Action V (Option ℕ × String)
  unfolding find_catcher
  find_catch_frame s = do
    x ← stack_of s
    ex ← found undefined (in_flight x)
    gets (λ p. (find_catcher p.try_frame_at (Thrown.tag ex) x.tryframes, Thrown.tag ex))

  abbrev pub catch_thrown : Stack V → Stack V
  catch_thrown x =
      if is_running x.current_state then record x { caught = x.thrown; thrown = none } else x

  -- With no catcher, every frame's deferred calls are registered, and the exception stays.
  unfoldable pub unwind_uncaught : Kernel → ℕ → Action V (Unit {0})
  unfolding register_frames
  unwind_uncaught k s = do
    modify (push_order s)
    x ← stack_of s
    register_frames k s (reverse x.frames)
    modify (λ p. switch_to_top p.stacks_order p)

  unfoldable pub unwind_with : Kernel → ℕ → Option ℕ → String → Action V (Unit {0})
  unfolding unwind_to unwind_uncaught
  unwind_with k s none type = unwind_uncaught k s
  unwind_with k s (some tframe) type = do on_stack s catch_thrown; unwind_to k s tframe type

  unfoldable pub unwind : Kernel → ℕ → Action V (Unit {0})
  unfolding find_catch_frame unwind_with
  unwind k s = do (tframe, type) ← find_catch_frame s; unwind_with k s tframe type
