-- ===== src/Process/Deferred/Resuming.antt =====
-- The second phase of unwinding in src/process/stack.cpp, in which the frames are popped.
use Prim.Native.String.{String}
use wudoovm.Common.{
  ◌++◌, false, length-append, take-append_length, drop-append_length, Bool-cases, inl, inr, ℕ, zero,
  suc, ◌+◌, ◌<◌, ◌≡◌, refl, sym, ap, ◌∙◌, Bool, true, false, not, ◌&&◌, Option, some, List, [], ◌∷◌,
  length, get_or, take, drop, ◌==◌, leb, arith,
}
use wudoovm.Common.Outcome.{ok}
use wudoovm.Kernel.Register
use wudoovm.Kernel.Register.{Register, is_null}
use wudoovm.Kernel.RegisterSet
use wudoovm.Kernel.RegisterSet.{RegisterSet, vacant}
use wudoovm.Kernel.Bounds.{IsWellFormed}
use wudoovm.Process.Code.{Kernel, get_entry_point_of_block, lookup}
use wudoovm.Process.State.{
  update, Process, Frame, Stack, TryFrame, Thrown, running,
  suspended_by_deferred_during_stack_unwinding,
}
use wudoovm.Process.Action.{
  missing, found, Action, put_stack, pure, gets, modify, lift, throw_if, when, on_stack, ◌>>=◌,
  ◌>>◌,
}
use wudoovm.Process.Frames.{
  mem_new, moved, check_arguments, take_back, pop, set_frames, is_nil, set_state,
}
use wudoovm.Process.Unwinding.{
  pop_frames, leave_frames, unwind, unwind_by, unwind_call_stack_to, try_frames_from, find_catcher,
  distance_to, catch_thrown, in_flight,
}
use wudoovm.Process.Runs.{bind_run_ok, bind_gets}
use wudoovm.Process.Ownership.{put_stack_self}
use wudoovm.Process.Deferred.Distance.{StopsAt, distance_to-append}
use wudoovm.Process.Deferred.Catchers.{
  found_run, jump_to, jump_to_stack, unwind_caught_run, unwind_try_stack_to_run,
  find_catcher-append, try_frames_from-append, NoCatcher,
}

==_refl : (a : ℕ) → (a == a) ≡ true
==_refl a = ground arith

module _ {V : Type 0} where
  -- No register of the set holds a parameter that was moved into it and not taken.
  pub record TakesAll (rs : RegisterSet V) : Type 0 where
    pub well_formed : IsWellFormed rs
    pub taken :
        (i : ℕ)
        → (not (is_null (Register.value (get_or rs.registers i vacant)))
            && Register.is_flagged (get_or rs.registers i vacant) moved)
          ≡ false

  check_arguments_run :
      (rs : RegisterSet V) (left i : ℕ) (p : Process V)
      → TakesAll rs
      → left + i ≡ rs.registerset_size
      → check_arguments rs left i p ≡ (ok tt, p)
  unfolding check_arguments pure ◌>>=◌ lift throw_if RegisterSet.at RegisterSet.is_flagged
  check_arguments_run rs zero i p h e = refl
  check_arguments_run rs (suc left) i p h e =
      let inside : leb rs.registerset_size i ≡ false = ground arith in
      let within : leb (length rs.registers) i ≡ false = ground (arith, h.well_formed) in
      rw (inside, within, h.taken i) (check_arguments_run rs left (i + 1) p h (omega arith))

  -- The parameters of these frames were all taken.
  abbrev pub AllTaken : (ℕ → Frame V) → List ℕ → Type 0
  AllTaken at [] = Unit {0}
  AllTaken at (f ∷ fs) = TakesAll (Frame.arguments (at f)) × AllTaken at fs

  skip_run :
      (c : Bool) (m : Action V (Unit {0})) (f : ℕ) (p : Process V)
      → c ≡ false
      → (when c m >> pure f) p ≡ (ok f, p)
  unfolding when pure ◌>>=◌
  skip_run c m f p e = rw e refl

  module _ (s : ℕ) where
    take_back_run :
        (p : Process V) (f : ℕ) (fs : List ℕ)
        → Stack.frames (p.stack_at s) ≡ f ∷ fs
        → take_back s p ≡ (ok f, put_stack s (set_frames fs (p.stack_at s)) p)
    unfolding take_back ◌>>=◌ gets pure on_stack modify
    take_back_run p f fs e = rw e refl

    -- A frame that is not the last, and whose parameters are taken, is popped.
    pub pop_run :
        (p : Process V) (f g : ℕ) (fs : List ℕ)
        → Stack.frames (p.stack_at s) ≡ f ∷ g ∷ fs
        → TakesAll (Frame.arguments (p.frame_at f))
        → pop s p ≡ (ok f, put_stack s (set_frames (g ∷ fs) (p.stack_at s)) p)
    unfolding pop
    pop_run p f g fs e h =
        let q = put_stack s (set_frames (g ∷ fs) (p.stack_at s)) p in
        bind_run_ok (take_back s) _ p q f (take_back_run p f (g ∷ fs) e)
        ∙ bind_gets (λ r. r.frame_at f) _ q
        ∙ bind_run_ok (check_arguments (Frame.arguments (p.frame_at f)) _ 0) _ q q tt
            (check_arguments_run _ _ 0 q h (omega arith))
        ∙ bind_gets (λ r. r.stack_at s) _ q
        ∙ skip_run (is_nil (Stack.frames (q.stack_at s))) _ f q (rw (==_refl s) refl)

    done : (p : Process V) → pure {A = Unit {0}} tt p ≡ (ok tt, p)
    unfolding pure
    done p = refl

    -- What popping `n` frames leaves: nothing else of the process has changed.
    pub record Popped (n : ℕ) (p q : Process V) : Type 0 where
      pub left : q.stack_at s ≡ set_frames (drop n (Stack.frames (p.stack_at s))) (p.stack_at s)
      pub others : (j : ℕ) → (j == s) ≡ false → q.stack_at j ≡ p.stack_at j
      pub frames_kept : q.frame_at ≡ p.frame_at
      pub stack_kept : q.stack ≡ p.stack
      pub order_kept : q.stacks_order ≡ p.stacks_order

    pop_frames_run :
        (n : ℕ) (p : Process V) (fs : List ℕ)
        → Stack.frames (p.stack_at s) ≡ fs
        → n < length fs
        → AllTaken p.frame_at (take n fs)
        → (q : Process V) × (pop_frames s n p ≡ (ok tt, q)) × Popped n p q
    unfolding pop_frames
    pop_frames_run zero p fs e lt h = (
      p,
      done p,
      record {
        left = refl;
        others = λ j o. refl;
        frames_kept = refl;
        stack_kept = refl;
        order_kept = refl;
      },
    )
    pop_frames_run (suc n) p [] e lt h = absurd (omega arith)
    pop_frames_run (suc n) p (f ∷ []) e lt h = absurd (omega arith)
    pop_frames_run (suc n) p (f ∷ g ∷ fs) e lt h =
        let x = set_frames (g ∷ fs) (p.stack_at s) in
        let p1 = put_stack s x p in
        let top = put_stack_self p s x in
        let r = pop_frames_run n p1 (g ∷ fs) (ap Stack.frames top) (omega arith) h.1 in
        (
          r.0,
          bind_run_ok (pop s) _ p p1 f (pop_run p f g fs e h.0) ∙ r.1,
          record {
            left =
                r.2.left
                ∙ ap {A = Stack V} (λ z. set_frames (drop n (Stack.frames z)) z) top
                ∙ ap (λ o. set_frames (drop (suc n) o) (p.stack_at s)) (sym e);
            others = λ j o. r.2.others j o ∙ rw o refl;
            frames_kept = r.2.frames_kept;
            stack_kept = r.2.stack_kept;
            order_kept = r.2.order_kept;
          },
        )

  module _ (k : Kernel) (s : ℕ) where
    leave_frames_run :
        (n : ℕ) (p : Process V)
        → Stack.current_state (p.stack_at s) ≡ suspended_by_deferred_during_stack_unwinding
        → leave_frames s n p
          ≡ pop_frames s n (put_stack s (record (p.stack_at s) { current_state = running }) p)
    unfolding leave_frames set_state ◌>>=◌ gets throw_if pure on_stack modify
    leave_frames_run n p r = rw r refl

    unwind_call_stack_to_second :
        (p : Process V) (f : Option ℕ) (above : List ℕ) (b : ℕ) (below : List ℕ)
        → Stack.current_state (p.stack_at s) ≡ suspended_by_deferred_during_stack_unwinding
        → Stack.frames (p.stack_at s) ≡ above ++ (b ∷ below)
        → mem_new f above ≡ false
        → StopsAt f b below
        → unwind_call_stack_to k s f p ≡ leave_frames s (length above) p
    unfolding unwind_call_stack_to unwind_by
    unwind_call_stack_to_second p f above b below r e out stop =
        let fs = Stack.frames (p.stack_at s) in
        bind_gets (λ q. q.stack_at s) _ p
        ∙ bind_run_ok (found missing (distance_to f fs)) _ p p (length above) (
            found_run missing (distance_to f fs) (length above) p
              (ap (distance_to f) e ∙ distance_to-append f above b below out stop))
        ∙ rw r refl

    suspended_stack :
        (x : Stack V)
        → x.current_state ≡ suspended_by_deferred_during_stack_unwinding
        → (catch_thrown x ≡ x) × (in_flight x ≡ x.caught)
    suspended_stack x r = (ground arith, ground arith)

    -- The second phase, of a stack that was suspended with a caught exception: the frames above
    -- the one that entered the block are popped, or those above the bottom one if that frame is not on
    -- the stack, and the stack runs on in the handler. Of the try frames those before the first that
    -- catches are left, and the others stay; no other stack is touched. A stack with a frame and
    -- a known handler are assumed, and that the parameters moved into the popped frames were taken.
    pub unwind_resumed :
        (p : Process V) (e : Thrown V) (t : ℕ) (name : String) (entry : ℕ × ℕ)
        (later us above : List ℕ) (b : ℕ) (below : List ℕ)
        → let x = p.stack_at s in
          let f = TryFrame.associated_frame (p.try_frame_at t) in
          Stack.current_state x ≡ suspended_by_deferred_during_stack_unwinding
          → Stack.caught x ≡ some e
          → Stack.tryframes x ≡ later ++ (t ∷ us)
          → NoCatcher p.try_frame_at e.tag later
          → lookup (TryFrame.catchers (p.try_frame_at t)) e.tag ≡ some name
          → get_entry_point_of_block k name ≡ some entry
          → Stack.frames x ≡ above ++ (b ∷ below)
          → mem_new f above ≡ false
          → StopsAt f b below
          → AllTaken p.frame_at above
          → (q : Process V) × (unwind k s p ≡ (ok tt, q))
            × ((j : ℕ)
                → q.stack_at j
                  ≡ update p.stack_at s
                      (record x {
                        frames = b ∷ below;
                        current_state = running;
                        jump_base = some entry.1;
                        instruction_pointer = some entry.0;
                        tryframes = t ∷ us;
                      })
                      j)
            × (q.stack ≡ p.stack)
            × (q.stacks_order ≡ p.stacks_order)
            × (q.frame_at ≡ p.frame_at)
    unfolding jump_to
    unwind_resumed p e t name entry later us above b below r ca tf nc lk ep split out stop h =
        let x = p.stack_at s in
        let f = TryFrame.associated_frame (p.try_frame_at t) in
        let n = length above in
        let parts = length-append above (b ∷ below) in
        let c = suspended_stack x r in
        let p1 = put_stack s (catch_thrown x) p in
        let p3 = jump_to k s entry p1 in
        let at_s : p3.stack_at s
            ≡ record x { jump_base = some entry.1; instruction_pointer = some entry.0 } =
          jump_to_stack k s entry p1
          ∙ ap {A = Stack V}
              (λ z. record z { jump_base = some entry.1; instruction_pointer = some entry.0 })
              (put_stack_self p s (catch_thrown x) ∙ c.0) in
        let y : Stack V = record (p3.stack_at s) { current_state = running } in
        let p4 = put_stack s y p3 in
        let at_y = put_stack_self p3 s y in
        let pops =
          pop_frames_run s n p4 (above ++ (b ∷ below))
            (ap Stack.frames at_y ∙ ap Stack.frames at_s ∙ split) (omega arith)
            (rw (take-append_length above (b ∷ below)) h) in
        let q2 = pops.0 in
        let fc =
          ap (find_catcher p.try_frame_at e.tag) tf
          ∙ find_catcher-append p.try_frame_at e.tag name t us lk later nc in
        let from = try_frames_from-append p.try_frame_at e.tag name t us lk later nc in
        let left : q2.stack_at s ≡ record x {
          frames = b ∷ below;
          current_state = running;
          jump_base = some entry.1;
          instruction_pointer = some entry.0;
        } =
          pops.2.left
          ∙ ap {A = Stack V} (λ z. set_frames (drop n (Stack.frames z)) z)
              (at_y ∙ ap {A = Stack V} (λ z. record z { current_state = running }) at_s)
          ∙ ap {A = List ℕ}
              (λ o. record x {
                frames = o;
                current_state = running;
                jump_base = some entry.1;
                instruction_pointer = some entry.0;
              })
              (ap (drop n) split ∙ drop-append_length above (b ∷ below)) in
        let z : Stack V = record (q2.stack_at s) { tryframes = t ∷ us } in
        (
          put_stack s z q2,
          unwind_caught_run k s p e t name entry (c.1 ∙ ca) fc lk ep
              ∙ bind_run_ok (unwind_call_stack_to k s f) _ p3 q2 tt (
                  unwind_call_stack_to_second p3 f above b below (ap Stack.current_state at_s ∙ r)
                    (ap Stack.frames at_s ∙ split) out stop
                  ∙ leave_frames_run n p3 (ap Stack.current_state at_s ∙ r)
                  ∙ pops.1)
              ∙ unwind_try_stack_to_run k s q2 t (t ∷ us) (
                  ap (try_frames_from t) (ap Stack.tryframes left)
                  ∙ ap (try_frames_from t) tf
                  ∙ from),
          λ j. elim (Bool-cases (j == s)) [
            | inl same ↦ rw same (ap {A = Stack V} (λ w. record w { tryframes = t ∷ us }) left)
            | inr other ↦ rw other (pops.2.others j other ∙ rw other refl)
          ],
          pops.2.stack_kept,
          pops.2.order_kept,
          pops.2.frames_kept,
        )
