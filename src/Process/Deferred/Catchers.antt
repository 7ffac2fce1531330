-- ===== src/Process/Deferred/Catchers.antt =====
-- How a handler is found and entered when a stack unwinds, in src/process/stack.cpp.
use Prim.Native.String.{String}
use wudoovm.Common.{
  ◌++◌, ℕ, ◌≡◌, refl, subst, ◌∙◌, true, Option, none, some, List, [], ◌∷◌, ◌==◌, Bool-cases, inl,
  inr, arith, ==_iff,
}
use wudoovm.Common.Outcome.{ok}
use wudoovm.Process.Code.{Kernel, get_entry_point_of_block, lookup}
use wudoovm.Process.State.{Process, Stack, TryFrame, Thrown}
use wudoovm.Process.Action.{Fault, put_stack, pure, gets, modify, found, on_stack, ◌>>=◌, ◌>>◌}
use wudoovm.Process.Frames.{adjust_jump_base_for_block}
use wudoovm.Process.Unwinding.{
  switch_to_top, unwind, unwind_with, unwind_to, find_catch_frame, find_catcher,
  adjust_instruction_pointer, unwind_call_stack_to, unwind_try_stack_to, try_frames_from,
  catch_thrown, in_flight,
}
use wudoovm.Process.Runs.{bind_run_ok, bind_gets, bind_on_stack}

==_refl : (a : ℕ) → (a == a) ≡ true
==_refl a = ground arith

-- None of these try frames has a catcher for a type.
abbrev pub NoCatcher : (ℕ → TryFrame) → String → List ℕ → Type 0
NoCatcher at type [] = Unit {0}
NoCatcher at type (u ∷ us) = (lookup (TryFrame.catchers (at u)) type ≡ none) × NoCatcher at type us

module _ (at : ℕ → TryFrame) (type name : String) (t : ℕ) (us : List ℕ)
    (lk : lookup (TryFrame.catchers (at t)) type ≡ some name) where
  -- The first try frame with a catcher is found.
  pub find_catcher-append :
      (later : List ℕ) → NoCatcher at type later → find_catcher at type (later ++ (t ∷ us)) ≡ some t
  unfolding find_catcher
  find_catcher-append [] h = rw lk refl
  find_catcher-append (u ∷ later) h = rw h.0 (find_catcher-append later h.1)

  other_frame : (u : ℕ) → lookup (TryFrame.catchers (at u)) type ≡ none → (u == t) ≡ true → ⊥
  other_frame u h e =
      let none_there : lookup (TryFrame.catchers (at t)) type ≡ none =
        subst (λ v. lookup (TryFrame.catchers (at v)) type ≡ none) ((==_iff u t).0 e) h in
      cc

  pub try_frames_from-append :
      (later : List ℕ)
      → NoCatcher at type later
      → try_frames_from t (later ++ (t ∷ us)) ≡ some (t ∷ us)
  unfolding try_frames_from
  try_frames_from-append [] h = rw (==_refl t) refl
  try_frames_from-append (u ∷ later) h = elim (Bool-cases (u == t)) [
    | inl same ↦ absurd (other_frame u h.0 same)
    | inr other ↦ rw other (try_frames_from-append later h.1)
  ]

-- A read that finds something.
pub found_run :
    {V A : Type 0} (e : Fault V) (o : Option A) (a : A) (p : Process V)
    → o ≡ some a
    → found e o p ≡ (ok a, p)
unfolding found pure
found_run e o a p h = rw h refl

module _ {V : Type 0} where
  pub switch_to_top_stacks :
      (order : List ℕ) (p : Process V) → (switch_to_top order p).stack_at ≡ p.stack_at
  switch_to_top_stacks [] p = refl
  switch_to_top_stacks (s ∷ order) p = refl

  pub switch_to_top_frames :
      (order : List ℕ) (p : Process V) → (switch_to_top order p).frame_at ≡ p.frame_at
  switch_to_top_frames [] p = refl
  switch_to_top_frames (s ∷ order) p = refl

module _ {V : Type 0} (k : Kernel) (s : ℕ) where
  -- The stack goes on at an entry point.
  unfoldable pub jump_to : ℕ × ℕ → Process V → Process V
  jump_to entry p =
      let p1 = put_stack s (record (p.stack_at s) { jump_base = some entry.1 }) p in
      put_stack s (record (p1.stack_at s) { instruction_pointer = some entry.0 }) p1

  pub find_catch_frame_run :
      (p : Process V) (e : Thrown V)
      → in_flight (p.stack_at s) ≡ some e
      → find_catch_frame s p
        ≡ (ok (find_catcher p.try_frame_at e.tag (Stack.tryframes (p.stack_at s)), e.tag), p)
  unfolding find_catch_frame ◌>>=◌ gets found pure
  find_catch_frame_run p e h = rw h refl

  adjust_instruction_pointer_run :
      (p : Process V) (t : ℕ) (type name : String) (entry : ℕ × ℕ)
      → lookup (TryFrame.catchers (p.try_frame_at t)) type ≡ some name
      → get_entry_point_of_block k name ≡ some entry
      → adjust_instruction_pointer k s t type p ≡ (ok tt, jump_to entry p)
  unfolding adjust_instruction_pointer adjust_jump_base_for_block ◌>>=◌ gets found pure modify
      on_stack jump_to
  adjust_instruction_pointer_run p t type name entry lk ep = rw (lk, ep) refl

  unwind_to_run :
      (p : Process V) (t : ℕ) (type name : String) (entry : ℕ × ℕ)
      → lookup (TryFrame.catchers (p.try_frame_at t)) type ≡ some name
      → get_entry_point_of_block k name ≡ some entry
      → unwind_to k s t type p
        ≡ (unwind_call_stack_to k s (TryFrame.associated_frame (p.try_frame_at t))
              >> unwind_try_stack_to s t)
            (jump_to entry p)
  unfolding unwind_to jump_to
  unwind_to_run p t type name entry lk ep =
      bind_run_ok _ _ p (jump_to entry p) tt
        (adjust_instruction_pointer_run p t type name entry lk ep)
      ∙ bind_gets (λ r. r.try_frame_at t) _ (jump_to entry p)

  pub unwind_caught_run :
      (p : Process V) (e : Thrown V) (t : ℕ) (name : String) (entry : ℕ × ℕ)
      → in_flight (p.stack_at s) ≡ some e
      → find_catcher p.try_frame_at e.tag (Stack.tryframes (p.stack_at s)) ≡ some t
      → lookup (TryFrame.catchers (p.try_frame_at t)) e.tag ≡ some name
      → get_entry_point_of_block k name ≡ some entry
      → unwind k s p
        ≡ (unwind_call_stack_to k s (TryFrame.associated_frame (p.try_frame_at t))
              >> unwind_try_stack_to s t)
            (jump_to entry (put_stack s (catch_thrown (p.stack_at s)) p))
  unfolding unwind unwind_with
  unwind_caught_run p e t name entry fl fc lk ep =
      bind_run_ok (find_catch_frame s) (λ r. unwind_with k s r.0 r.1) p p _
        (rw fc at (find_catch_frame_run p e fl))
      ∙ bind_on_stack s catch_thrown (unwind_to k s t e.tag) p
      ∙ unwind_to_run (put_stack s (catch_thrown (p.stack_at s)) p) t e.tag name entry lk ep

  pub jump_to_stack :
      (entry : ℕ × ℕ) (p : Process V)
      → (jump_to entry p).stack_at s
        ≡ record (p.stack_at s) { jump_base = some entry.1; instruction_pointer = some entry.0 }
  unfolding jump_to
  jump_to_stack entry p = rw (==_refl s) refl

  pub unwind_try_stack_to_run :
      (p : Process V) (t : ℕ) (us : List ℕ)
      → try_frames_from t (Stack.tryframes (p.stack_at s)) ≡ some us
      → unwind_try_stack_to s t p
        ≡ (ok tt, put_stack s (record (p.stack_at s) { tryframes = us }) p)
  unfolding unwind_try_stack_to ◌>>=◌ gets found pure on_stack modify
  unwind_try_stack_to_run p t us h = rw h refl
