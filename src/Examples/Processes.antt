-- ===== src/Examples/Processes.antt =====
-- A process of src/process.cpp whose function `main` entered a block and called `f`, which deferred
-- `d` and threw an exception that the block catches.
use Prim.Native.String.{String}
use wudoovm.Common.{
  inl, ◌⊎◌, ℕ, zero, suc, ◌+◌, ◌≤◌, ◌<◌, ◌≡◌, ◌≢◌, refl, false, none, some, List, [], ◌∷◌, ◌==◌,
  if◌then◌else◌, if◌then◌else◌, arith,
}
use wudoovm.Common.Int.{pos}
use wudoovm.Common.Outcome
use wudoovm.Common.Outcome.{ok}
use wudoovm.Kernel.Value.{plain}
use wudoovm.Process.Code.{Kernel, is_native_function, get_entry_point_of, get_entry_point_of_block}
use wudoovm.Process.State.{
  update, Process, Frame, Stack, TryFrame, Thrown, running,
  suspended_by_deferred_during_stack_unwinding, text, number,
}
use wudoovm.Process.Action.{
  ◌>>=◌, gets, when, found, throw_if, on_stack, on_current, thrown_text, described,
}
use wudoovm.Process.Prepared.{prepare_frame, push_prepared_frame}
use wudoovm.Process.Unwinding.{unwind, find_catcher}
use wudoovm.Process.Tick.{Instruction, Values, frame, call, ret, tick, dispatch, catch_with}
use wudoovm.Process.Calls.{opframe, opcall}
use wudoovm.Process.Life.{run_code, ticks, create, start, Reach, here, next, starts}
use wudoovm.Process.Ownership.{IsValid}
use wudoovm.Process.Ownership.Reachable.{Reach-IsValid, push-ne-corruption}
use wudoovm.Process.Deferred.{without_base}
use wudoovm.Process.Deferred.Frames.{schedule, cleared_all}
use wudoovm.Process.Deferred.Catching.{unwind_caught}
use wudoovm.Process.Deferred.Uncaught.{unwind-uncaught}
use wudoovm.Process.Deferred.Resuming.{TakesAll, unwind_resumed}
use wudoovm.Process.Pushing.{push_prepared_frame-cases}

abbrev pub kernel : Kernel
kernel = record {
  bytecode = 1000;
  function_addresses = ("main", 0) ∷ ("f", 50) ∷ ("d", 60) ∷ [];
  block_addresses = ("b", 100) ∷ ("h", 200) ∷ [];
  linked_functions = [];
  linked_blocks = [];
  foreign_functions = [];
  linked_modules = [];
  byte_at = λ a. 0;
}

abbrev pub named : String → List ℕ → Frame ℕ
named name calls = record {
  return_address = none;
  arguments = record { registerset_size = 0; registers = [] };
  local_register_set = none;
  return_register = none;
  deferred_calls = calls;
  function_name = name;
}

abbrev pub frames : ℕ → Frame ℕ
frames zero = named "main" []
frames (suc zero) = named "f" (2 ∷ [])
frames (suc (suc n)) = named "d" []

abbrev pub block : TryFrame
block = record {
  return_address = some 1010;
  associated_frame = some 0;
  block_name = "b";
  catchers = ("E", "h") ∷ [];
}

abbrev pub thrown_e : Thrown ℕ
thrown_e = record { tag = "E"; description = []; value = none }

-- The blocks that were entered later have no catchers.
abbrev pub blocks : ℕ → TryFrame
blocks zero = block
blocks (suc n) = record block { associated_frame = some 3; catchers = [] }

abbrev pub throwing : List ℕ → Stack ℕ
throwing ts = record {
  frames = 1 ∷ 0 ∷ [];
  current_state = running;
  entry_function = "main";
  jump_base = some 1000;
  instruction_pointer = some 1055;
  frame_new = none;
  tryframes = ts;
  try_frame_new = none;
  thrown = some thrown_e;
  caught = none;
  return_value = none;
}

abbrev pub with_stack : Stack ℕ → Process ℕ
with_stack x = record {
  cells = [];
  frame_at = frames;
  next_frame = 4;
  try_frame_at = blocks;
  next_try_frame = 2;
  stack_at = λ s. x;
  next_stack = 1;
  stack = 0;
  stacks_order = [];
  global_register_set = record { registerset_size = 0; registers = [] };
  static_registers = [];
  is_suspended = false;
  finished = false;
}

-- `f` called `d`, which entered a block that catches nothing and threw the exception.
abbrev deep : Stack ℕ
deep = record (throwing (1 ∷ 0 ∷ [])) { frames = 3 ∷ 1 ∷ 0 ∷ [] }

unwind_caught_example :
    (q : Process ℕ) × (unwind kernel 0 (with_stack deep) ≡ (ok tt, q))
    × (schedule q ≡ (2 ∷ []) ∷ (3 ∷ 1 ∷ 0 ∷ []) ∷ [])
    × (without_base (q.stack_at 0) ≡ record deep {
      current_state = suspended_by_deferred_during_stack_unwinding;
      jump_base = none;
      instruction_pointer = some 1200;
      tryframes = 0 ∷ [];
      thrown = none;
      caught = some thrown_e;
    })
    × (q.frame_at ≡ cleared_all frames (1 ∷ 3 ∷ []))
unfolding get_entry_point_of get_entry_point_of_block
unwind_caught_example =
    unwind_caught kernel 0 (with_stack deep) thrown_e 0 "h" (1200, 1000) (1 ∷ []) [] (3 ∷ 1 ∷ []) 0
      [] refl refl refl (refl, tt) refl refl refl refl (inl refl) (((1060, 1000), refl), tt)
      (refl, (refl, tt)) tt (omega arith)

unwind-uncaught_example :
    (q : Process ℕ) × (unwind kernel 0 (with_stack (throwing [])) ≡ (ok tt, q))
    × (schedule q ≡ (2 ∷ []) ∷ (1 ∷ 0 ∷ []) ∷ [])
    × (without_base (q.stack_at 0) ≡ without_base (throwing []))
    × (q.frame_at ≡ cleared_all frames (0 ∷ 1 ∷ []))
unfolding find_catcher get_entry_point_of
unwind-uncaught_example =
    unwind-uncaught kernel 0 (with_stack (throwing [])) thrown_e refl refl
      (((1060, 1000), refl), tt) (refl, (refl, tt)) tt (omega arith)

-- The stack after the deferred call of `f` has returned.
abbrev suspended : Stack ℕ
suspended = record deep {
  current_state = suspended_by_deferred_during_stack_unwinding;
  thrown = none;
  caught = some thrown_e;
}

pub no_parameters : TakesAll {V = ℕ} (record { registerset_size = 0; registers = [] })
no_parameters = record { well_formed = refl; taken = λ i. refl }

unwind_resumed_example :
    (q : Process ℕ) × (unwind kernel 0 (with_stack suspended) ≡ (ok tt, q))
    × ((j : ℕ)
        → q.stack_at j
          ≡ update
              (λ i. suspended)
              0
              (record suspended {
                frames = 0 ∷ [];
                current_state = running;
                jump_base = some 1000;
                instruction_pointer = some 1200;
                tryframes = 0 ∷ [];
              })
              j)
    × (q.stack ≡ 0)
    × (q.stacks_order ≡ [])
    × (q.frame_at ≡ frames)
unfolding get_entry_point_of_block
unwind_resumed_example =
    unwind_resumed kernel 0 (with_stack suspended) thrown_e 0 "h" (1200, 1000) (1 ∷ []) []
      (3 ∷ 1 ∷ []) 0 [] refl refl refl (refl, tt) refl refl refl refl (inl refl)
      (no_parameters, (no_parameters, tt))

-- The stack with a frame that an instruction `frame` has prepared.
abbrev prepared : Stack ℕ
prepared = record (throwing []) { frame_new = some 2 }

push_prepared_frame-cases_example :
    ((2 ≤ 8192)
      × (q : Process ℕ) × (push_prepared_frame 0 (with_stack prepared) ≡ (ok tt, q))
      × (q.stack_at 0 ≡ record prepared { frames = 2 ∷ 1 ∷ 0 ∷ []; frame_new = none }))
    ⊎ ((8192 < 2)
        × (push_prepared_frame 0 (with_stack prepared) ≡ (
          Outcome.throw (
              described (
                text "stack size ("
                ∷ number 8192
                ∷ text ") exceeded with call to '"
                ∷ text "d"
                ∷ text "'"
                ∷ [])),
          with_stack prepared,
        )))
push_prepared_frame-cases_example = push_prepared_frame-cases 0 (with_stack prepared) 2 refl refl

abbrev numbers : Values ℕ
numbers = record {
  as_integer = λ v. pos 0;
  as_exception = λ v. none;
  type_of = λ v. "Integer";
  to_value = λ e. plain 0;
  boolean = λ b. if b then 1 else 0;
}

-- The bytecode of `main`, which calls `f`, and of `f`, which returns.
abbrev code : ℕ → Instruction ℕ × ℕ
code a =
    if a == 1000 then (frame 0, 1002) else if a == 1002 then (call none "f", 1007) else (ret, a + 2)

abbrev after_tick : Process ℕ → Process ℕ
after_tick p = (tick kernel (run_code numbers kernel code) p).1

abbrev started : Process ℕ
started = (start kernel (create (named "main" []))).1

abbrev framed : Process ℕ
framed = after_tick started

abbrev called : Process ℕ
called = after_tick framed

called_stack : Stack.frames (called.stack_at 0) ≡ 1 ∷ 0 ∷ []
unfolding tick run_code dispatch opframe opcall start create ◌>>=◌ gets when found throw_if on_stack
    on_current catch_with prepare_frame is_native_function get_entry_point_of
called_stack = refl

abbrev to_framed : Reach numbers kernel code (create (named "main" [])) framed
to_framed = next (next here (starts refl)) (ticks refl)

Reach-IsValid_example : IsValid called
Reach-IsValid_example =
    Reach-IsValid numbers kernel code (named "main" []) called refl (next to_framed (ticks refl))

push-ne-corruption_example :
    (push_prepared_frame 0 framed).0 ≢ Outcome.throw (thrown_text (text "corrupted" ∷ []))
push-ne-corruption_example =
    push-ne-corruption numbers kernel code (named "main" []) framed refl to_framed 0
      (text "corrupted" ∷ [])
