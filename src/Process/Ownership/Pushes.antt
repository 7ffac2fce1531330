-- ===== src/Process/Ownership/Pushes.antt =====
-- A frame is prepared and pushed in src/process/stack.cpp: what this keeps, and why the frame is
-- never on the stack already.
use wudoovm.Common.{
  ℕ, suc, ◌≤◌, ◌≡◌, ◌≢◌, refl, true, false, Option, none, some, List, length, arith, ◌==◌, ltb, inl,
  inr, Bool-cases,
}
use wudoovm.Common.Outcome.{throw}
use wudoovm.Process.State.{Process, Stack, Part}
use wudoovm.Process.Action.{
  Action, thrown_text, then_run, pure, fail, gets, modify, throw_if, when, found, on_stack, ◌>>=◌,
}
use wudoovm.Process.Frames.{mem_new, max_stack_size, emplace_back}
use wudoovm.Process.Prepared.{
  too_deep, take_frame_new, push_prepared_frame, prepare_frame, new_frame,
}
use wudoovm.Process.Ownership.{
  Fresh, OwnsFrames, OwnsAt, Keeps, Any, After, IsValid, put_stack-Owns, Below-suc, mem-Below,
}

==_refl : (a : ℕ) → (a == a) ≡ true
==_refl a = ground arith

fresh-mem_new : (n : ℕ) (o : Option ℕ) (fs : List ℕ) → Fresh n o fs → mem_new o fs ≡ false
fresh-mem_new n none fs h = refl
fresh-mem_new n (some f) fs h = h.1

Fresh-suc : (n : ℕ) (o : Option ℕ) (fs : List ℕ) → Fresh n o fs → Fresh (suc n) o fs
Fresh-suc n none fs h = tt
Fresh-suc n (some f) fs h = (omega arith, h.1)

module _ {V : Type 0} (n : ℕ) (s : ℕ) (p : Process V) (v : OwnsAt n p) where
  -- The message that the stack is exceeded names the prepared frame.
  too_deep-After :
      (o : Option ℕ) (rest : Unit {0} → Action V (Unit {0}))
      → After n Any (then_run (too_deep o p) rest)
  unfolding ◌>>=◌ found gets fail pure
  too_deep-After none rest = v
  too_deep-After (some f) rest = v

  push_new-After :
      (o : Option ℕ)
      → Stack.frame_new (p.stack_at s) ≡ o
      → length (Stack.frames (p.stack_at s)) ≤ max_stack_size
      → After n Any ((take_frame_new s >>= emplace_back s) p)
  unfolding ◌>>=◌ found gets fail pure on_stack modify emplace_back
  push_new-After none e b = rw e v
  push_new-After (some f) e b =
      let h = v.owned s in
      let g : Fresh n (some f) (Stack.frames (p.stack_at s)) = rw e at h.prepared in
      rw e (
        put_stack-Owns n _ s _
            (put_stack-Owns n p s _ v (record {
              allocated = h.allocated;
              distinct = h.distinct;
              prepared = tt;
              bounded = h.bounded;
            }))
            (rw (==_refl s) (record {
              allocated = (g.0, h.allocated);
              distinct = (g.1, h.distinct);
              prepared = tt;
              bounded = omega arith;
            })),
        tt,
      )

  push_prepared_frame-After : After n Any (push_prepared_frame s p)
  unfolding push_prepared_frame ◌>>=◌ gets when pure
  push_prepared_frame-After =
      elim (Bool-cases (ltb max_stack_size (length (Stack.frames (p.stack_at s))))) [
        | inl deep ↦ rw deep (too_deep-After (Stack.frame_new (p.stack_at s)) _)
        | inr shallow ↦
            rw
              (
                shallow,
                fresh-mem_new n (Stack.frame_new (p.stack_at s)) _
                    (OwnsFrames.prepared (v.owned s)),
              )
              (push_new-After _ refl (ground arith))
      ]

  too_deep-fails :
      (o : Option ℕ) (rest : Unit {0} → Action V (Unit {0})) (d : List Part)
      → (then_run (too_deep o p) rest).0 ≢ throw (thrown_text d)
  unfolding ◌>>=◌ found gets fail pure
  too_deep-fails none rest d e = cc
  too_deep-fails (some f) rest d e = cc

  push_new-fails :
      (o : Option ℕ) (d : List Part)
      → Stack.frame_new (p.stack_at s) ≡ o
      → ((take_frame_new s >>= emplace_back s) p).0 ≢ throw (thrown_text d)
  unfolding ◌>>=◌ found gets fail pure on_stack modify emplace_back
  push_new-fails none d o e = let e' = rw o at e in cc
  push_new-fails (some f) d o e = let e' = rw o at e in cc

  -- Where the invariant holds, no push ends in the text that a frame is pushed more than once.
  pub push_prepared_frame-ne-corruption :
      (d : List Part) → (push_prepared_frame s p).0 ≢ throw (thrown_text d)
  unfolding push_prepared_frame ◌>>=◌ gets when pure
  push_prepared_frame-ne-corruption d =
      elim (Bool-cases (ltb max_stack_size (length (Stack.frames (p.stack_at s))))) [
        | inl deep ↦ rw deep (too_deep-fails (Stack.frame_new (p.stack_at s)) _ d)
        | inr shallow ↦
            rw
              (
                shallow,
                fresh-mem_new n (Stack.frame_new (p.stack_at s)) _
                    (OwnsFrames.prepared (v.owned s)),
              )
              (push_new-fails _ d refl)
      ]

module _ {V : Type 0} (n : ℕ) where
  pub push_prepared_frame-Keeps : (s : ℕ) → Keeps {V = V} n Any (push_prepared_frame s)
  push_prepared_frame-Keeps s = record { run = λ p v. push_prepared_frame-After n s p v }

  OwnsFrames-suc : (x : Stack V) → OwnsFrames n x → OwnsFrames (suc n) x
  OwnsFrames-suc x h = record {
    allocated = Below-suc n x.frames h.allocated;
    distinct = h.distinct;
    prepared = Fresh-suc n x.frame_new x.frames h.prepared;
    bounded = h.bounded;
  }

  -- A new frame is not yet on the stack that prepares it.
  prepared-Owns :
      (x : Stack V) → OwnsFrames n x → OwnsFrames (suc n) (record x { frame_new = some n })
  prepared-Owns x h = record {
    allocated = Below-suc n x.frames h.allocated;
    distinct = h.distinct;
    prepared = (omega arith, mem-Below n x.frames h.allocated);
    bounded = h.bounded;
  }

module _ {V : Type 0} (s args : ℕ) (p : Process V) (v : IsValid p) where
  prepare_new-IsValid :
      (o : Option ℕ) → Stack.frame_new (p.stack_at s) ≡ o → IsValid (prepare_frame s args p).1
  unfolding prepare_frame ◌>>=◌ gets throw_if fail pure on_stack modify new_frame
  prepare_new-IsValid (some f) e = rw e v
  prepare_new-IsValid none e = rw e (record {
    counted = refl;
    deferred = λ f. elim (Bool-cases (f == p.next_frame)) [
      | inl new ↦ rw new tt
      | inr old ↦ rw old (Below-suc p.next_frame _ (v.deferred f))
    ];
    owned = λ j. elim (Bool-cases (j == s)) [
      | inl here ↦ rw here (prepared-Owns p.next_frame (p.stack_at s) (v.owned s))
      | inr there ↦ rw there (OwnsFrames-suc p.next_frame (p.stack_at j) (v.owned j))
    ];
  })

  pub prepare_frame-IsValid : IsValid (prepare_frame s args p).1
  prepare_frame-IsValid = prepare_new-IsValid _ refl
