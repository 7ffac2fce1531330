-- ===== src/Process/Calling.antt =====
-- A call of a native function: `opcall` of src/process/instr/calls.cpp.
use Prim.Native.String.{String}
use wudoovm.Common.{
  ℕ, ◌≤◌, ◌≡◌, refl, ap, ◌∙◌, true, false, Option, none, some, ◌∷◌, length, ◌==◌, Bool-cases, inl,
  inr,
}
use wudoovm.Common.Outcome.{ok}
use wudoovm.Process.Code.{Kernel, is_native_function, get_entry_point_of}
use wudoovm.Process.State.{Process, Frame, Stack, Place, update}
use wudoovm.Process.Action.{pure, gets, modify, found, throw_if, put_frame, ◌>>=◌}
use wudoovm.Process.Frames.{mem, adjust_jump_base_for, set_frames}
use wudoovm.Process.Places.{new_frame_of_current}
use wudoovm.Process.Calls.{opcall, call_by, call_native, require_frame, fill_frame, push_frame}
use wudoovm.Process.Runs.{bind_run_ok, bind_gets}
use wudoovm.Process.Ownership.{put_stack_self}
use wudoovm.Process.Pushing.{pushed, push_with_room}
use wudoovm.Process.Deferred.ReturnSteps.{throw_if_not, based, adjusted, finished}

module _ {V : Type 0} where
  -- The frame of a call.
  abbrev pub filled : String → Option ℕ → Option Place → Frame V → Frame V
  filled name a r y = record y { function_name = name; return_address = a; return_register = r }

  module _ (q : Process V) (f : ℕ) (new : Stack.frame_new (q.stack_at q.stack) ≡ some f) where
    has_frame : require_frame q ≡ (ok tt, q)
    unfolding ◌>>=◌ gets throw_if pure
    has_frame = rw new refl

    prepared : new_frame_of_current q ≡ (ok f, q)
    unfolding ◌>>=◌ gets found pure
    prepared = rw new refl

    fill_run :
        (name : String) (a : Option ℕ) (r : Option Place)
        → fill_frame name a r q ≡ (ok tt, put_frame f (filled name a r (q.frame_at f)) q)
    unfolding modify
    fill_run name a r = bind_run_ok new_frame_of_current _ q q f prepared

  module _ (k : Kernel) (p : Process V) where
    opcall_native :
        (r : Option Place) (name : String) (addr : ℕ)
        → is_native_function k name ≡ true
        → opcall k r name addr p ≡ call_native k (some addr) name r p
    unfolding opcall call_by
    opcall_native r name addr native = throw_if_not _ _ _ p (rw native refl) ∙ rw native refl

    -- A call of a native function that has an entry point, with a prepared frame that is not yet on the
    -- stack, which has at most 8192 frames: the frame is on the stack, with the place to return to, and
    -- the process goes on at the entry point of the function, in its module.
    pub opcall_enters :
        (r : Option Place) (name : String) (addr f : ℕ) (entry : ℕ × ℕ)
        → let x = p.stack_at p.stack in
          is_native_function k name ≡ true
          → get_entry_point_of k name ≡ some entry
          → Stack.frame_new x ≡ some f
          → mem f (Stack.frames x) ≡ false
          → length (Stack.frames x) ≤ 8192
          → (q : Process V) × (opcall k r name addr p ≡ (ok (some entry.0), q))
            × ((j : ℕ)
                → q.stack_at j
                  ≡ update p.stack_at p.stack
                      (record x {
                        frames = f ∷ Stack.frames x;
                        frame_new = none;
                        jump_base = some entry.1;
                      })
                      j)
            × (q.frame_at ≡ update p.frame_at f (filled name (some addr) r (p.frame_at f)))
            × (q.stack ≡ p.stack)
            × (q.stacks_order ≡ p.stacks_order)
    unfolding call_native push_frame
    opcall_enters r name addr f entry native ep new absent room =
        let s = p.stack in
        let x = p.stack_at s in
        let p1 = based s entry p in
        let at_s = put_stack_self p s (record x { jump_base = some entry.1 }) in
        let new1 = ap Stack.frame_new at_s ∙ new in
        let p2 = put_frame f (filled name (some addr) r (p1.frame_at f)) p1 in
        let frames_kept = ap Stack.frames at_s in
        (
          pushed s f p2,
          opcall_native r name addr native
              ∙ bind_gets (λ q. q.stack) _ p
              ∙ bind_run_ok (adjust_jump_base_for k s name) _ p p1 (some entry.0)
                  (adjusted k s name entry p ep)
              ∙ bind_run_ok require_frame _ p1 p1 tt (has_frame p1 f new1)
              ∙ bind_run_ok (fill_frame name (some addr) r) _ p1 p2 tt
                  (fill_run p1 f new1 name (some addr) r)
              ∙ bind_run_ok push_frame _ p2 (pushed s f p2) tt (
                  bind_gets (λ q. q.stack) _ p2
                  ∙ push_with_room s p2 f new1 (ap (mem f) frames_kept ∙ absent)
                      (rw frames_kept room))
              ∙ finished (some entry.0) (pushed s f p2),
          λ j. elim (Bool-cases (j == s)) [
            | inl same ↦ rw same (
                ap {A = Stack V} (λ z. set_frames (f ∷ Stack.frames z) z)
                  (put_stack_self p2 s (record (p2.stack_at s) { frame_new = none })
                    ∙ ap {A = Stack V} (λ z. record z { frame_new = none }) at_s))
            | inr other ↦ rw other refl
          ],
          refl,
          refl,
          refl,
        )
