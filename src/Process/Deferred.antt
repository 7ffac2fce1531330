-- ===== src/Process/Deferred.antt =====
-- Deferred calls, in src/process/stack.cpp: in which order the stacks that are registered for them
-- wait to run.
pub mod Frames
pub mod Distance
pub mod Catchers
pub mod Catching
pub mod Uncaught
pub mod Resuming
pub mod ReturnSteps
pub mod Returning
use Prim.Native.String.{String}
use mathlib.Core.List.{reverse, reverse-append, append_assoc, append-nil}
use wudoovm.Common.{
  ℕ, suc, ◌+◌, ◌≤◌, ◌<◌, ◌≡◌, ◌≢◌, refl, sym, ap, ap₂, ◌∙◌, ==_iff, Bool, Option, none, some, List,
  [], ◌∷◌, ◌++◌, map, ◌==◌, Bool-cases, inl, inr, arith, true, false,
}
use wudoovm.Common.Outcome.{Outcome, ok, throw, unfinished}
use wudoovm.Process.Code.{Kernel, get_entry_point_of}
use wudoovm.Process.State.{Process, Frame, Stack, update}
use wudoovm.Process.Action.{
  Action, Fault, then_run, put_stack, put_frame, pure, gets, modify, found, on_stack, ◌>>=◌,
}
use wudoovm.Process.Frames.{
  register_deferred_call, register_each, register_deferred_calls_from, start_stack, emplace_back,
  adjust_jump_base_for, new_stack, push_order, set_frames,
}
use wudoovm.Process.Ownership.{Below, Below-suc}

module _ {V : Type 0} where
  -- The frames of the stacks that wait, from the one that runs next.
  abbrev pub frames_of : (ℕ → Stack V) → List ℕ → List (List ℕ)
  frames_of at [] = []
  frames_of at (s ∷ order) = Stack.frames (at s) ∷ frames_of at order

  abbrev pub waiting : Process V → List (List ℕ)
  waiting p = frames_of p.stack_at p.stacks_order

  -- A stack, but for the base of its jumps.
  abbrev pub without_base : Stack V → Stack V
  without_base x = record x { jump_base = none }

abbrev pub singles : List ℕ → List (List ℕ)
singles [] = []
singles (c ∷ cs) = (c ∷ []) ∷ singles cs

-- From `p` to `q` the calls `cs` have been registered, and nothing else is different.
pub record Registers {V : Type 0} (p q : Process V) (cs : List ℕ) : Type 0 where
  pub waits : waiting q ≡ reverse (singles cs) ++ waiting p
  pub allocated : Below q.next_stack q.stacks_order
  pub grown : p.next_stack ≤ q.next_stack
  pub kept : (j : ℕ) → j < p.next_stack → without_base (q.stack_at j) ≡ without_base (p.stack_at j)
  pub current : q.stack ≡ p.stack

-- Every call has an entry point.
abbrev pub HasEntries : {V : Type 0} → Kernel → (ℕ → Frame V) → List ℕ → Type 0
HasEntries k at [] = Unit {0}
HasEntries k at (c ∷ cs) =
    ((e : ℕ × ℕ) × (get_entry_point_of k (Frame.function_name (at c)) ≡ some e))
    × HasEntries k at cs

==_refl : (a : ℕ) → (a == a) ≡ true
==_refl a = ground arith

module _ {V : Type 0} where
  pub frames_of_ext :
      (f g : ℕ → Stack V) (n : ℕ) (order : List ℕ)
      → ((j : ℕ) → j < n → Stack.frames (g j) ≡ Stack.frames (f j))
      → Below n order
      → frames_of g order ≡ frames_of f order
  frames_of_ext f g n [] h b = refl
  frames_of_ext f g n (s ∷ order) h b = ap₂ ◌∷◌ (h s b.0) (frames_of_ext f g n order h b.1)

  -- The process after a call is registered.
  abbrev registered : ℕ → ℕ → ℕ × ℕ → Process V → Process V
  registered s each e p =
      let n = p.next_stack in
      let p1 = record p {
        stack_at = update p.stack_at n (new_stack (Frame.function_name (p.frame_at each)));
        next_stack = suc n;
      } in
      let p2 = put_stack n (set_frames (each ∷ Stack.frames (p1.stack_at n)) (p1.stack_at n)) p1 in
      let p3 = put_stack s (record (p2.stack_at s) { jump_base = some e.1 }) p2 in
      push_order n (put_stack n (record (p3.stack_at n) { instruction_pointer = some e.0 }) p3)

  registered-Registers :
      (s each : ℕ) (e : ℕ × ℕ) (p : Process V)
      → Below p.next_stack p.stacks_order
      → s < p.next_stack
      → Registers p (registered s each e p) (each ∷ [])
  unfolding new_stack
  registered-Registers s each e p b lt =
      let old : (s == p.next_stack) ≡ false = ground arith in
      let new : (p.next_stack == s) ≡ false = ground arith in
      let kept : (j : ℕ)
          → j < p.next_stack
          → without_base ((registered s each e p).stack_at j) ≡ without_base (p.stack_at j) =
        λ j hj.
          let below : (j == p.next_stack) ≡ false = ground arith in
          elim (Bool-cases (j == s)) [
            | inl same ↦ rw (below, same, old, (==_iff j s).0 same) refl
            | inr other ↦ rw (below, other) refl
          ] in
      record {
        waits = ap₂ ◌∷◌ (rw (==_refl p.next_stack, new) refl) (
            frames_of_ext p.stack_at (registered s each e p).stack_at p.next_stack p.stacks_order
              (λ j hj. ap Stack.frames (kept j hj)) b);
        allocated = (omega arith, Below-suc p.next_stack p.stacks_order b);
        grown = omega arith;
        kept = kept;
        current = refl;
      }

  module _ (k : Kernel) (s : ℕ) where
    register_deferred_call_run :
        (each : ℕ) (p : Process V) (e : ℕ × ℕ)
        → get_entry_point_of k (Frame.function_name (p.frame_at each)) ≡ some e
        → register_deferred_call k s each p ≡ (ok tt, registered s each e p)
    unfolding register_deferred_call start_stack emplace_back adjust_jump_base_for new_stack ◌>>=◌
        gets found pure modify on_stack
    register_deferred_call_run each p e h = rw h refl

singles-append : (xs ys : List ℕ) → singles (xs ++ ys) ≡ singles xs ++ singles ys
singles-append [] ys = refl
singles-append (x ∷ xs) ys = ap (◌∷◌ (x ∷ [])) (singles-append xs ys)

module _ {V : Type 0} where
  pub Registers-refl : (p : Process V) → Below p.next_stack p.stacks_order → Registers p p []
  Registers-refl p b = record {
    waits = refl;
    allocated = b;
    grown = omega arith;
    kept = λ j h. refl;
    current = refl;
  }

  -- Calls that are registered one after the other.
  pub Registers-trans :
      (p q r : Process V) (cs ds : List ℕ)
      → Registers p q cs
      → Registers q r ds
      → Registers p r (cs ++ ds)
  Registers-trans p q r cs ds h g = record {
    waits =
        g.waits
        ∙ ap (◌++◌ (reverse (singles ds))) h.waits
        ∙ simp (singles-append, reverse-append, append_assoc);
    allocated = g.allocated;
    grown = omega (arith, h.grown, g.grown);
    kept = λ j lt. g.kept j (omega (arith, h.grown)) ∙ h.kept j lt;
    current = g.current ∙ h.current;
  }

  module _ (k : Kernel) (s : ℕ) where
    pub register_each-Registers :
        (cs : List ℕ) (p : Process V)
        → HasEntries k p.frame_at cs
        → Below p.next_stack p.stacks_order
        → s < p.next_stack
        → ((register_each k s cs p).0 ≡ ok tt)
          × Registers p (register_each k s cs p).1 cs
          × ((register_each k s cs p).1.frame_at ≡ p.frame_at)
    unfolding register_each pure ◌>>=◌
    register_each-Registers [] p es b lt = (refl, Registers-refl p b, refl)
    register_each-Registers (c ∷ cs) p es b lt =
        let q = registered s c es.0.0 p in
        let h = registered-Registers s c es.0.0 p b lt in
        let ih = register_each-Registers cs q es.1 h.allocated (omega (arith, h.grown)) in
        rw (register_deferred_call_run k s c p es.0.0 es.0.1)
          (ih.0, Registers-trans p q _ (c ∷ []) cs h ih.1, ih.2)
