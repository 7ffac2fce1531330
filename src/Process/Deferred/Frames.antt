-- ===== src/Process/Deferred/Frames.antt =====
-- The deferred calls of the frames that an exception leaves: the loops over frames in
-- src/process/stack.cpp, and the stack that runs after them.
use wudoovm.Common.{
  ℕ, ◌<◌, ◌≡◌, refl, sym, subst, ap, ◌∙◌, false, List, [], ◌∷◌, ◌++◌, ◌==◌, Bool-cases, inl, inr,
  arith, ==_iff,
}
use wudoovm.Common.Outcome.{ok}
use wudoovm.Process.Code.{Kernel}
use wudoovm.Process.State.{Process, Frame, update}
use wudoovm.Process.Action.{put_frame, pure, gets, modify, ◌>>=◌}
use wudoovm.Process.Frames.{mem, register_each, register_deferred_calls_from}
use wudoovm.Process.Unwinding.{register_frames, switch_to_top}
use wudoovm.Process.Ownership.{Below, Distinct}
use wudoovm.Process.Runs.{bind_ok}
use wudoovm.Process.Deferred.{
  Registers, HasEntries, waiting, frames_of, Registers-trans, Registers-refl,
  register_each-Registers,
}

-- The deferred calls of some frames, in order.
abbrev pub deferred_of : {V : Type 0} → (ℕ → Frame V) → List ℕ → List ℕ
deferred_of at [] = []
deferred_of at (f ∷ fs) = Frame.deferred_calls (at f) ++ deferred_of at fs

-- A frame whose deferred calls are cleared.
abbrev pub cleared : {V : Type 0} → (ℕ → Frame V) → ℕ → ℕ → Frame V
cleared at f = update at f (record (at f) { deferred_calls = [] })

abbrev pub cleared_all : {V : Type 0} → (ℕ → Frame V) → List ℕ → ℕ → Frame V
cleared_all at [] = at
cleared_all at (f ∷ fs) = cleared_all (cleared at f) fs

module _ {V : Type 0} where
  cleared_name :
      (at : ℕ → Frame V) (f g : ℕ)
      → Frame.function_name (cleared at f g) ≡ Frame.function_name (at g)
  cleared_name at f g = elim (Bool-cases (g == f)) [
    | inl e ↦ rw (e, sym ((==_iff g f).0 e)) refl
    | inr e ↦ rw e refl
  ]

  HasEntries-cleared :
      (k : Kernel) (at : ℕ → Frame V) (f : ℕ) (cs : List ℕ)
      → HasEntries k at cs
      → HasEntries k (cleared at f) cs
  HasEntries-cleared k at f [] h = tt
  HasEntries-cleared k at f (c ∷ cs) h =
      ((h.0.0, rw (cleared_name at f c) h.0.1), HasEntries-cleared k at f cs h.1)

  HasEntries-append :
      (k : Kernel) (at : ℕ → Frame V) (cs ds : List ℕ)
      → HasEntries k at (cs ++ ds)
      → HasEntries k at cs × HasEntries k at ds
  HasEntries-append k at [] ds h = (tt, h)
  HasEntries-append k at (c ∷ cs) ds h =
      let r = HasEntries-append k at cs ds h.1 in ((h.0, r.0), r.1)

  deferred_of-cleared :
      (at : ℕ → Frame V) (f : ℕ) (fs : List ℕ)
      → mem f fs ≡ false
      → deferred_of (cleared at f) fs ≡ deferred_of at fs
  deferred_of-cleared at f [] h = refl
  deferred_of-cleared at f (g ∷ fs) h =
      let other : (g == f) ≡ false = ground arith in
      let rest : mem f fs ≡ false = ground arith in
      rw (other, deferred_of-cleared at f fs rest) refl

  module _ (k : Kernel) (s : ℕ) where
    register_deferred_calls_from_run :
        (f : ℕ) (p : Process V)
        → (register_each k s (Frame.deferred_calls (p.frame_at f)) p).0 ≡ ok tt
        → register_deferred_calls_from k s f p ≡ (
          ok tt,
          (let q = (register_each k s (Frame.deferred_calls (p.frame_at f)) p).1 in
              put_frame f (record (q.frame_at f) { deferred_calls = [] }) q),
        )
    unfolding register_deferred_calls_from gets modify ◌>>=◌
    register_deferred_calls_from_run f p h =
        bind_ok (register_each k s (Frame.deferred_calls (p.frame_at f)))
          (λ _. modify (λ q. put_frame f (record (q.frame_at f) { deferred_calls = [] }) q)) p tt h

    pub register_deferred_calls_from-Registers :
        (f : ℕ) (p : Process V)
        → HasEntries k p.frame_at (Frame.deferred_calls (p.frame_at f))
        → Below p.next_stack p.stacks_order
        → s < p.next_stack
        → ((register_deferred_calls_from k s f p).0 ≡ ok tt)
          × Registers p
              (register_deferred_calls_from k s f p).1
              (Frame.deferred_calls (p.frame_at f))
          × ((register_deferred_calls_from k s f p).1.frame_at ≡ cleared p.frame_at f)
    register_deferred_calls_from-Registers f p es b lt =
        let cs = Frame.deferred_calls (p.frame_at f) in
        let h = register_each-Registers k s cs p es b lt in
        let q = (register_each k s cs p).1 in
        let g = h.1 in
        rw (register_deferred_calls_from_run f p h.0) (
          refl,
          record {
            waits = g.waits;
            allocated = g.allocated;
            grown = g.grown;
            kept = g.kept;
            current = g.current;
          },
          ap (λ at. cleared at f) h.2,
        )

    -- The frames' calls wait in the reverse of the order in which they are registered, before
    -- the stacks that waited already, and the frames have no deferred calls any more.
    pub register_frames-Registers :
        (fs : List ℕ) (p : Process V)
        → HasEntries k p.frame_at (deferred_of p.frame_at fs)
        → Distinct fs
        → Below p.next_stack p.stacks_order
        → s < p.next_stack
        → ((register_frames k s fs p).0 ≡ ok tt)
          × Registers p (register_frames k s fs p).1 (deferred_of p.frame_at fs)
          × ((register_frames k s fs p).1.frame_at ≡ cleared_all p.frame_at fs)
    unfolding register_frames pure
    register_frames-Registers [] p es d b lt = (refl, Registers-refl p b, refl)
    register_frames-Registers (f ∷ fs) p es d b lt =
        let cs = Frame.deferred_calls (p.frame_at f) in
        let parts = HasEntries-append k p.frame_at cs _ es in
        let h = register_deferred_calls_from-Registers f p parts.0 b lt in
        let q = (register_deferred_calls_from k s f p).1 in
        let g = h.1 in
        let same = deferred_of-cleared p.frame_at f fs d.0 in
        let ih =
          register_frames-Registers fs q
            (subst (λ at. HasEntries k at (deferred_of at fs)) (sym h.2)
              (rw same (HasEntries-cleared k p.frame_at f _ parts.1)))
            d.1 g.allocated (omega (arith, g.grown)) in
        rw (bind_ok (register_deferred_calls_from k s f) (λ _. register_frames k s fs) p tt h.0) (
          ih.0,
          Registers-trans p q _ cs _ g (
              subst (λ ds. Registers q (register_frames k s fs q).1 ds)
                (ap (λ at. deferred_of at fs) h.2 ∙ same) ih.1),
          ih.2 ∙ ap (λ at. cleared_all at fs) h.2,
        )

-- The frames of the stack that runs, and of those that wait.
abbrev pub schedule : {V : Type 0} → Process V → List (List ℕ)
schedule p = frames_of p.stack_at (p.stack ∷ p.stacks_order)

module _ {V : Type 0} where
  -- The top of an order that is not empty runs next.
  pub schedule-switch :
      (p : Process V) (x : List ℕ) (xs ys : List (List ℕ))
      → waiting p ≡ ys ++ (x ∷ xs)
      → schedule (switch_to_top p.stacks_order p) ≡ ys ++ (x ∷ xs)
  schedule-switch p x xs ys h = switch_from p.stacks_order refl
    where
      not_empty : (zs : List (List ℕ)) → [] ≡ zs ++ (x ∷ xs) → ⊥
      not_empty [] e = cc
      not_empty (z ∷ zs) e = cc

      switch_from :
          (order : List ℕ)
          → p.stacks_order ≡ order
          → schedule (switch_to_top order p) ≡ ys ++ (x ∷ xs)
      switch_from [] e = absurd (not_empty ys (ap (frames_of p.stack_at) (sym e) ∙ h))
      switch_from (s ∷ order) e = ap (frames_of p.stack_at) (sym e) ∙ h
