-- ===== src/Process/Ownership/Stacks.antt =====
-- The operations of src/process/stack.cpp, but for unwinding, keep the invariant of the frames.
use Prim.Native.String.{String}
use wudoovm.Common.{
  ℕ, zero, suc, ◌+◌, ◌<◌, ◌≡◌, refl, Bool, true, false, Option, none, some, List, [], ◌∷◌, length,
  arith, ◌==◌, ltb, if◌then◌else◌, inl, inr, Bool-cases,
}
use wudoovm.Kernel.RegisterSet.{RegisterSet}
use wudoovm.Process.Code.{Kernel}
use wudoovm.Process.State.{Process, Stack, State}
use wudoovm.Process.Action.{pure, fail, gets, modify, on_stack, ◌>>=◌}
use wudoovm.Process.Frames.{
  back, set_frames, new_stack, set_state, pop_result, set_return_value, adjust_jump_base_for_block,
  adjust_jump_base_for, allocate_stack, register_deferred_call, register_each,
  register_deferred_calls_from, register_deferred_calls, start_stack, take_back, check_arguments,
  keep_result, pop_back, pop, push_order,
}
use wudoovm.Process.Ownership.{
  Below, Fresh, OwnsFrames, OwnsAt, Keeps, Any, After, bind-Keeps, pure-Keeps, found-Keeps,
  throw_if-Keeps, when-Keeps, lift-Keeps, put_frame-Keeps, modify-Keeps, frame_of-Keeps,
  stack_of-Keeps, same_frames-Keeps, put_stack-Owns,
}

Fresh-tail : (n : ℕ) (o : Option ℕ) (f : ℕ) (fs : List ℕ) → Fresh n o (f ∷ fs) → Fresh n o fs
Fresh-tail n none f fs h = tt
Fresh-tail n (some g) f fs h = ground arith

==_refl : (a : ℕ) → (a == a) ≡ true
==_refl a = ground arith

module _ {V : Type 0} (n : ℕ) where
  pub set_state-Keeps : (s : ℕ) (st : State) → Keeps {V = V} n Any (set_state s st)
  unfolding set_state
  set_state-Keeps s st = same_frames-Keeps n s _ (λ x. refl) (λ x. refl)

  pub back-Keeps : (s : ℕ) → Keeps {V = V} n Any (back s)
  back-Keeps s = bind-Keeps n (stack_of-Keeps n s) λ x h. found-Keeps n _ _ _ (λ a e. tt)

  pop_result-Keeps : (f : ℕ) → Keeps {V = V} n Any (pop_result f)
  pop_result-Keeps f = bind-Keeps n (frame_of-Keeps n f) λ x h.
      bind-Keeps n (found-Keeps n Any _ _ (λ a e. tt)) λ locals _.
        bind-Keeps n (lift-Keeps n _)
          λ r _. bind-Keeps n (put_frame-Keeps n f _ (λ p v. h)) λ u _. pure-Keeps n Any _ tt

  pub set_return_value-Keeps : (s : ℕ) → Keeps {V = V} n Any (set_return_value s)
  unfolding set_return_value
  set_return_value-Keeps s = bind-Keeps n (back-Keeps s) λ f _.
      bind-Keeps n (frame_of-Keeps n f) λ x h. when-Keeps n _ _ (
        bind-Keeps n (frame_of-Keeps n f) λ y g.
          bind-Keeps n (found-Keeps n Any _ _ (λ a e. tt)) λ locals _.
            bind-Keeps n (lift-Keeps n _) λ v _. bind-Keeps n (throw_if-Keeps n _ _) λ u _.
              bind-Keeps n (pop_result-Keeps f)
                λ w _. same_frames-Keeps n s _ (λ z. refl) (λ z. refl))

  pub adjust_jump_base_for_block-Keeps :
      (k : Kernel) (s : ℕ) (name : String)
      → Keeps {V = V} n Any (adjust_jump_base_for_block k s name)
  unfolding adjust_jump_base_for_block
  adjust_jump_base_for_block-Keeps k s name =
      bind-Keeps n (found-Keeps n Any _ _ (λ a e. tt)) λ e _.
        bind-Keeps n (same_frames-Keeps n s _ (λ x. refl) (λ x. refl)) λ u _. pure-Keeps n Any _ tt

  pub adjust_jump_base_for-Keeps :
      (k : Kernel) (s : ℕ) (name : String) → Keeps {V = V} n Any (adjust_jump_base_for k s name)
  unfolding adjust_jump_base_for
  adjust_jump_base_for-Keeps k s name = bind-Keeps n (found-Keeps n Any _ _ (λ a e. tt)) λ e _.
      bind-Keeps n (same_frames-Keeps n s _ (λ x. refl) (λ x. refl)) λ u _. pure-Keeps n Any _ tt

  new_stack-Owns : (p : Process V) (fn : String) → OwnsAt n p → After n Any (allocate_stack fn p)
  unfolding new_stack pure
  new_stack-Owns p fn v = (
    record {
      counted = v.counted;
      deferred = v.deferred;
      owned = λ j. elim (Bool-cases (j == p.next_stack)) [
        | inl e ↦
            rw e (record { allocated = tt; distinct = tt; prepared = tt; bounded = omega arith })
        | inr e ↦ rw e (v.owned j)
      ];
    },
    tt,
  )

  pub push_order-Owns : (s : ℕ) (p : Process V) → OwnsAt n p → OwnsAt n (push_order s p)
  push_order-Owns s p v = record { counted = v.counted; deferred = v.deferred; owned = v.owned }

  push_unless-Owns :
      (s : ℕ) (c : Bool) (p : Process V) → OwnsAt n p → OwnsAt n (if c then push_order s p else p)
  push_unless-Owns s true p v = push_order-Owns s p v
  push_unless-Owns s false p v = v

  check_arguments-Keeps :
      (args : RegisterSet V) (left i : ℕ) → Keeps {V = V} n Any (check_arguments args left i)
  unfolding check_arguments
  check_arguments-Keeps args zero i = pure-Keeps n Any _ tt
  check_arguments-Keeps args (suc left) i = bind-Keeps n (lift-Keeps n _) λ v _.
      bind-Keeps n (lift-Keeps n _)
        λ used _. bind-Keeps n (throw_if-Keeps n _ _) λ u _. check_arguments-Keeps args left (i + 1)

  tail-Owns :
      (x : Stack V) (f : ℕ) (fs : List ℕ)
      → x.frames ≡ f ∷ fs
      → OwnsFrames n x
      → OwnsFrames n (set_frames fs x)
  tail-Owns x f fs e h = record {
    allocated = (rw e at h.allocated).1;
    distinct = (rw e at h.distinct).1;
    prepared = Fresh-tail n x.frame_new f fs (rw e at h.prepared);
    bounded = ground (arith, h.bounded);
  }

  -- The vector of frames that is popped is the one that was read.
  pop_back-After :
      (s : ℕ) (p : Process V) (fs : List ℕ)
      → Stack.frames (p.stack_at s) ≡ fs
      → OwnsAt n p
      → After n Any (pop_back s fs p)
  unfolding ◌>>=◌ on_stack modify pure fail
  pop_back-After s p [] e v = v
  pop_back-After s p (f ∷ fs) e v =
      (put_stack-Owns n p s _ v (tail-Owns (p.stack_at s) f fs e (v.owned s)), tt)

  keep_result-Keeps : (s f : ℕ) → Keeps {V = V} n Any (keep_result s f)
  keep_result-Keeps s f =
      bind-Keeps n (pop_result-Keeps f) λ v _. same_frames-Keeps n s _ (λ x. refl) (λ x. refl)

  take_back-Keeps : (s : ℕ) → Keeps {V = V} n Any (take_back s)
  unfolding take_back ◌>>=◌ gets
  take_back-Keeps s = record { run = λ p v. pop_back-After s p _ refl v }

  pub pop-Keeps : (s : ℕ) → Keeps {V = V} n Any (pop s)
  unfolding pop
  pop-Keeps s = bind-Keeps n (take_back-Keeps s) λ f _. bind-Keeps n (frame_of-Keeps n f) λ y _.
      bind-Keeps n (check_arguments-Keeps _ _ _) λ u _.
        bind-Keeps n (stack_of-Keeps n s) λ x _.
          bind-Keeps n (when-Keeps n _ _ (keep_result-Keeps s f)) λ w _. pure-Keeps n Any _ tt

  -- A new stack with one frame.
  start_stack-Keeps :
      (fn : String) (each : ℕ) → each < n → Keeps {V = V} n Any (start_stack fn each)
  unfolding start_stack ◌>>=◌ on_stack modify pure
  start_stack-Keeps fn each h = record {
    run = λ p v. (
      put_stack-Owns n _ p.next_stack _ (new_stack-Owns p fn v).0 (
          rw (==_refl p.next_stack) (record {
            allocated = (h, tt);
            distinct = (refl, tt);
            prepared = tt;
            bounded = omega arith;
          })),
      tt,
    );
  }

  -- A deferred call begins a stack of its own.
  register_deferred_call-Keeps :
      (k : Kernel) (s each : ℕ) → each < n → Keeps {V = V} n Any (register_deferred_call k s each)
  unfolding register_deferred_call
  register_deferred_call-Keeps k s each h = bind-Keeps n (frame_of-Keeps n each) λ x _.
      bind-Keeps n (start_stack-Keeps _ each h) λ d _.
        bind-Keeps n (adjust_jump_base_for-Keeps k s _) λ e _.
          bind-Keeps n (same_frames-Keeps n d _ (λ y. refl) (λ y. refl))
            λ u _. modify-Keeps n _ (push_order-Owns d)

  register_each-Keeps :
      (k : Kernel) (s : ℕ) (fs : List ℕ) → Below n fs → Keeps {V = V} n Any (register_each k s fs)
  unfolding register_each
  register_each-Keeps k s [] h = pure-Keeps n Any _ tt
  register_each-Keeps k s (f ∷ fs) h =
      bind-Keeps n (register_deferred_call-Keeps k s f h.0) λ u _. register_each-Keeps k s fs h.1

  pub register_deferred_calls_from-Keeps :
      (k : Kernel) (s f : ℕ) → Keeps {V = V} n Any (register_deferred_calls_from k s f)
  unfolding register_deferred_calls_from
  register_deferred_calls_from-Keeps k s f = bind-Keeps n (frame_of-Keeps n f) λ x h.
      bind-Keeps n (register_each-Keeps k s x.deferred_calls h)
        λ u _. put_frame-Keeps n f _ (λ p v. tt)

  pub register_deferred_calls-Keeps :
      (k : Kernel) (s : ℕ) → Keeps {V = V} n Any (register_deferred_calls k s)
  unfolding register_deferred_calls
  register_deferred_calls-Keeps k s = bind-Keeps n (stack_of-Keeps n s) λ x _.
      bind-Keeps n (modify-Keeps n _ (push_unless-Owns s (ltb 1 (length x.frames))))
        λ u _. bind-Keeps n (back-Keeps s) λ f _. register_deferred_calls_from-Keeps k s f
