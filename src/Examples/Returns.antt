-- ===== src/Examples/Returns.antt =====
-- A call of a function `f` by `main`, and its returns, where it deferred `d`: `opcall` and `opreturn` of
-- src/process/instr/calls.cpp.
use wudoovm.Common.{ℕ, ◌≡◌, refl, none, some, [], ◌∷◌, arith}
use wudoovm.Common.Outcome.{ok}
use wudoovm.Process.Code.{get_entry_point_of, is_native_function}
use wudoovm.Process.State.{Process, Stack, update, running, suspended_by_deferred_on_frame_pop}
use wudoovm.Process.Calls.{opreturn, opcall}
use wudoovm.Process.Deferred.{without_base}
use wudoovm.Process.Deferred.Frames.{schedule, cleared}
use wudoovm.Process.Deferred.Returning.{opreturn_suspends, opreturn_returns}
use wudoovm.Process.Calling.{filled, opcall_enters}
use wudoovm.Examples.Processes.{kernel, frames, throwing, with_stack, no_parameters}

abbrev returning : Stack ℕ
returning = record (throwing []) { thrown = none }

abbrev waited : Stack ℕ
waited = record returning { current_state = suspended_by_deferred_on_frame_pop }

opreturn_suspends_example :
    (q : Process ℕ) × (opreturn kernel 1055 (with_stack returning) ≡ (ok (some 1055), q))
    × (schedule q ≡ (2 ∷ []) ∷ (1 ∷ 0 ∷ []) ∷ [])
    × (without_base (q.stack_at 0) ≡ without_base waited)
    × (q.frame_at ≡ cleared frames 1)
unfolding get_entry_point_of
opreturn_suspends_example =
    opreturn_suspends kernel (with_stack returning) 1 0 [] refl 1055 refl refl
      (((1060, 1000), refl), tt) tt (omega arith)

opreturn_returns_example :
    (q : Process ℕ) × (opreturn kernel 1055 (with_stack waited) ≡ (ok none, q))
    × ((j : ℕ)
        → q.stack_at j
          ≡ update
              (λ i. waited)
              0
              (record waited { frames = 0 ∷ []; current_state = running; jump_base = some 1000 })
              j)
    × (q.stack ≡ 0)
    × (q.stacks_order ≡ [])
    × (q.frame_at ≡ frames)
unfolding get_entry_point_of
opreturn_returns_example =
    opreturn_returns kernel (with_stack waited) 1 0 [] refl 1055 (1000, 1000) refl refl
      no_parameters refl

-- `main`, which has prepared a frame for a call of `f`.
abbrev calling : Stack ℕ
calling = record (throwing []) { frames = 0 ∷ []; frame_new = some 1; thrown = none }

opcall_enters_example :
    (q : Process ℕ) × (opcall kernel none "f" 1010 (with_stack calling) ≡ (ok (some 1050), q))
    × ((j : ℕ)
        → q.stack_at j
          ≡ update
              (λ i. calling)
              0
              (record calling { frames = 1 ∷ 0 ∷ []; frame_new = none; jump_base = some 1000 })
              j)
    × (q.frame_at ≡ update frames 1 (filled "f" (some 1010) none (frames 1)))
    × (q.stack ≡ 0)
    × (q.stacks_order ≡ [])
unfolding is_native_function get_entry_point_of
opcall_enters_example =
    opcall_enters kernel (with_stack calling) none "f" 1010 1 (1050, 1000) refl refl refl refl
      (omega arith)
