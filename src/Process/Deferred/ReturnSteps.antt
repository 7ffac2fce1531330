-- ===== src/Process/Deferred/ReturnSteps.antt =====
-- The single steps of `opreturn` in src/process/instr/calls.cpp, on their branches.
use Prim.Native.String.{String}
use wudoovm.Common.{
  ℕ, ◌≡◌, refl, ◌∙◌, Bool, true, false, not, Option, none, some, List, [], ◌∷◌, ◌++◌, if◌then◌else◌,
}
use wudoovm.Common.Outcome.{ok}
use wudoovm.Process.Code.{Kernel, get_entry_point_of}
use wudoovm.Process.State.{Place, Process, Frame, Stack, suspended_by_deferred_on_frame_pop}
use wudoovm.Process.Action.{
  Action, Fault, put_stack, pure, gets, modify, found, throw_if, when, on_stack, ◌>>=◌, ◌>>◌,
}
use wudoovm.Process.Frames.{adjust_jump_base_for, is_nil, back}
use wudoovm.Process.Calls.{
  place_return_value, require_on_frame_pop, take_return_value, resume_caller, unless_left,
}
use wudoovm.Process.Runs.{bind_run_ok, bind_gets}
use wudoovm.Process.Deferred.{frames_of}

module _ {V : Type 0} where
  pub some_wait :
      (at : ℕ → Stack V) (order x : List ℕ) (xs ys : List (List ℕ))
      → frames_of at order ≡ ys ++ (x ∷ xs)
      → is_nil order ≡ false
  some_wait at [] x xs [] e = absurd (cc)
  some_wait at [] x xs (y ∷ ys) e = absurd (cc)
  some_wait at (s ∷ order) x xs ys e = refl

  pub throw_if_not :
      {B : Type 0} (c : Bool) (e : Fault V) (m : Action V B) (q : Process V)
      → c ≡ false
      → (throw_if c e >> m) q ≡ m q
  unfolding throw_if ◌>>=◌ pure
  throw_if_not c e m q h = rw h refl

  pub not_begun :
      (addr : ℕ) (c : Bool) (m : Action V Bool) (rest : Action V (Option ℕ)) (q : Process V)
      → c ≡ false
      → ((if c then m else pure false) >>= λ left. unless_left left addr rest) q ≡ rest q
  unfolding ◌>>=◌ pure
  not_begun addr c m rest q h = rw h refl

  pub required :
      (s : ℕ) (q : Process V)
      → Stack.current_state (q.stack_at s) ≡ suspended_by_deferred_on_frame_pop
      → require_on_frame_pop s q ≡ (ok tt, q)
  unfolding ◌>>=◌ gets throw_if pure
  required s q h = rw h refl

  pub back_run :
      (s f : ℕ) (fs : List ℕ) (q : Process V)
      → Stack.frames (q.stack_at s) ≡ f ∷ fs
      → back s q ≡ (ok f, q)
  unfolding ◌>>=◌ gets found pure
  back_run s f fs q h = rw h refl

  pub taken_none :
      (s : ℕ) (r : Option Place) (q : Process V) → r ≡ none → take_return_value s r q ≡ (ok none, q)
  unfolding pure
  taken_none s r q h = rw h refl

  nothing_placed :
      (r : Option Place) (b : Bool) (q : Process V) → place_return_value r none b q ≡ (ok tt, q)
  unfolding pure
  nothing_placed none b q = refl
  nothing_placed (some r) b q = refl

  -- The stack jumps in the module that an entry point is in.
  abbrev pub based : ℕ → ℕ × ℕ → Process V → Process V
  based s entry q = put_stack s (record (q.stack_at s) { jump_base = some entry.1 }) q

  pub finished : {A : Type 0} (a : A) (q : Process V) → pure a q ≡ (ok a, q)
  unfolding pure
  finished a q = refl

  when-true : (c : Bool) (m : Action V (Unit {0})) (q : Process V) → c ≡ true → when c m q ≡ m q
  unfolding when
  when-true c m q h = rw h refl

module _ {V : Type 0} (k : Kernel) where
  -- What a return does after the frame is popped.
  abbrev pub after_pop : ℕ → Option Place → Option ℕ → Action V (Option ℕ)
  after_pop s r address = do
    y ← gets (λ q. q.stack_at s)
    place_return_value r none (not (is_nil (Stack.frames y)))
    when (not (is_nil (Stack.frames y))) (resume_caller k s)
    pure address

  pub adjusted :
      (s : ℕ) (name : String) (entry : ℕ × ℕ) (q : Process V)
      → get_entry_point_of k name ≡ some entry
      → adjust_jump_base_for k s name q ≡ (ok (some entry.0), based s entry q)
  unfolding adjust_jump_base_for ◌>>=◌ found pure on_stack modify
  adjusted s name entry q h = rw h refl

  resumed :
      (s g : ℕ) (fs : List ℕ) (entry : ℕ × ℕ) (q : Process V)
      → Stack.frames (q.stack_at s) ≡ g ∷ fs
      → get_entry_point_of k (Frame.function_name (q.frame_at g)) ≡ some entry
      → resume_caller k s q ≡ (ok tt, based s entry q)
  resumed s g fs entry q e ep =
      bind_run_ok (back s) _ q q g (back_run s g fs q e)
      ∙ bind_gets (λ o. o.frame_at g) _ q
      ∙ bind_run_ok (adjust_jump_base_for k s (Frame.function_name (q.frame_at g))) _ q
          (based s entry q) (some entry.0) (adjusted s _ entry q ep)
      ∙ finished tt (based s entry q)

  pub after_pop_run :
      (s g : ℕ) (fs : List ℕ) (r : Option Place) (a : Option ℕ) (entry : ℕ × ℕ) (q : Process V)
      → Stack.frames (q.stack_at s) ≡ g ∷ fs
      → get_entry_point_of k (Frame.function_name (q.frame_at g)) ≡ some entry
      → after_pop s r a q ≡ (ok a, based s entry q)
  after_pop_run s g fs r a entry q e ep =
      bind_gets (λ o. o.stack_at s) _ q
      ∙ bind_run_ok (place_return_value r none (not (is_nil (Stack.frames (q.stack_at s))))) _ q q
          tt (nothing_placed r _ q)
      ∙ bind_run_ok (when (not (is_nil (Stack.frames (q.stack_at s)))) (resume_caller k s)) _ q
          (based s entry q) tt
          (when-true _ (resume_caller k s) q (rw e refl) ∙ resumed s g fs entry q e ep)
      ∙ finished a (based s entry q)
