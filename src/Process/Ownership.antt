-- ===== src/Process/Ownership.antt =====
-- The invariant of the frames of a process, and the rules by which actions keep it: addresses of
-- frames are allocated ones, no stack holds a frame twice, the frame that is prepared is not yet
-- on the stack, and stacks are bounded. src/process/stack.cpp.
pub mod Stacks
pub mod Pushes
pub mod Places
pub mod Unwinding
pub mod Parameters
pub mod Calls
pub mod Registers
pub mod Blocks
pub mod Ticks
pub mod Reachable
use wudoovm.Common.{
  ℕ, suc, ◌≤◌, ◌<◌, ◌≡◌, refl, Bool, true, false, Option, none, some, List, [], ◌∷◌, ◌++◌, length,
  arith, ◌==◌, if◌then◌else◌, Bool-cases, inl, inr, subst,
}
use wudoovm.Common.Outcome.{Outcome, ok, throw, unfinished}
use wudoovm.Kernel.RegisterSet.{Exception}
use wudoovm.Process.State.{Process, Frame, Stack, update}
use wudoovm.Process.Action.{
  Action, Fault, then_run, pure, fail, gets, modify, throw_if, when, found, lift, on_stack,
  on_current, put_frame, put_stack, current, ◌>>=◌, ◌>>◌,
}
use wudoovm.Process.Frames.{mem, max_stack_size, frame_of, stack_of}

abbrev pub Below : ℕ → List ℕ → Type 0
Below n [] = Unit {0}
Below n (f ∷ fs) = (f < n) × Below n fs

abbrev pub Distinct : List ℕ → Type 0
Distinct [] = Unit {0}
Distinct (f ∷ fs) = (mem f fs ≡ false) × Distinct fs

-- The prepared frame is an allocated one that the stack does not hold.
abbrev pub Fresh : ℕ → Option ℕ → List ℕ → Type 0
Fresh n none fs = Unit {0}
Fresh n (some f) fs = (f < n) × (mem f fs ≡ false)

pub record OwnsFrames {V : Type 0} (n : ℕ) (x : Stack V) : Type 0 where
  pub allocated : Below n x.frames
  pub distinct : Distinct x.frames
  pub prepared : Fresh n x.frame_new x.frames
  pub bounded : length x.frames ≤ suc max_stack_size

-- With `n` addresses of frames allocated.
pub record OwnsAt {V : Type 0} (n : ℕ) (p : Process V) : Type 0 where
  pub counted : p.next_frame ≡ n
  pub deferred : (f : ℕ) → Below n (Frame.deferred_calls (p.frame_at f))
  pub owned : (s : ℕ) → OwnsFrames n (p.stack_at s)

abbrev pub IsValid : {V : Type 0} → Process V → Type 0
IsValid p = OwnsAt p.next_frame p

-- What holds after an action: the invariant, and of a result `Q` too.
abbrev pub After : {V A : Type 0} → ℕ → (A → Type 0) → Outcome (Fault V) A × Process V → Type 0
After n Q (ok a, p) = OwnsAt n p × Q a
After n Q (throw e, p) = OwnsAt n p
After n Q (unfinished, p) = OwnsAt n p

pub record Keeps {V A : Type 0} (n : ℕ) (Q : A → Type 0) (m : Action V A) : Type 0 where
  pub run : (p : Process V) → OwnsAt n p → After n Q (m p)

abbrev pub Any : {A : Type 0} → A → Type 0
Any a = Unit {0}

pub put_stack_self :
    {V : Type 0} (p : Process V) (s : ℕ) (x : Stack V) → (put_stack s x p).stack_at s ≡ x
put_stack_self p s x = ground arith

module _ {V A B : Type 0} (n : ℕ) where
  pub bind_run :
      (Q : A → Type 0) (R : B → Type 0) (f : A → Action V B) (r : Outcome (Fault V) A × Process V)
      → After n Q r
      → ((a : A) → Q a → Keeps n R (f a))
      → After n R (then_run r f)
  bind_run Q R f (ok a, p) h k = Keeps.run (k a h.1) p h.0
  bind_run Q R f (throw e, p) h k = h
  bind_run Q R f (unfinished, p) h k = h

  pub bind-Keeps :
      {Q : A → Type 0} {R : B → Type 0} {m : Action V A} {f : A → Action V B}
      → Keeps n Q m
      → ((a : A) → Q a → Keeps n R (f a))
      → Keeps n R (m >>= f)
  unfolding ◌>>=◌
  bind-Keeps {Q} {R} {m} {f} h k = record { run = λ p v. bind_run Q R f (m p) (h.run p v) k }

module _ {V : Type 0} (n : ℕ) where
  pub pure-Keeps : {A : Type 0} (Q : A → Type 0) (a : A) → Q a → Keeps {V = V} n Q (pure a)
  unfolding pure
  pure-Keeps Q a q = record { run = λ p v. (v, q) }

  pub fail-Keeps : {A : Type 0} (Q : A → Type 0) (e : Fault V) → Keeps n Q (fail {A = A} e)
  unfolding fail
  fail-Keeps Q e = record { run = λ p v. v }

  pub gets-Keeps :
      {A : Type 0} (Q : A → Type 0) (f : Process V → A)
      → ((p : Process V) → OwnsAt n p → Q (f p))
      → Keeps n Q (gets f)
  unfolding gets
  gets-Keeps Q f h = record { run = λ p v. (v, h p v) }

  pub found-Keeps :
      {A : Type 0} (Q : A → Type 0) (e : Fault V) (o : Option A)
      → ((a : A) → o ≡ some a → Q a)
      → Keeps n Q (found e o)
  unfolding found
  found-Keeps Q e none h = record { run = λ p v. v }
  found-Keeps Q e (some a) h = record { run = λ p v. (v, h a refl) }

  pub throw_if-Keeps : (c : Bool) (e : Fault V) → Keeps n Any (throw_if c e)
  unfolding throw_if
  throw_if-Keeps true e = record { run = λ p v. v }
  throw_if-Keeps false e = record { run = λ p v. (v, tt) }

  pub when-Keeps : (c : Bool) (m : Action V (Unit {0})) → Keeps n Any m → Keeps n Any (when c m)
  unfolding when
  when-Keeps true m h = h
  when-Keeps false m h = record { run = λ p v. (v, tt) }

  pub lift-Keeps : {A : Type 0} (o : Outcome Exception A) → Keeps {V = V} n Any (lift o)
  unfolding lift
  lift-Keeps (ok a) = record { run = λ p v. (v, tt) }
  lift-Keeps (throw e) = record { run = λ p v. v }
  lift-Keeps unfinished = record { run = λ p v. v }

  -- A change of one stack that keeps its frames in order.
  pub put_stack-Owns :
      (p : Process V) (s : ℕ) (x : Stack V)
      → OwnsAt n p
      → OwnsFrames n x
      → OwnsAt n (put_stack s x p)
  put_stack-Owns p s x v h = record {
    counted = v.counted;
    deferred = v.deferred;
    owned = λ j. elim (Bool-cases (j == s)) [ inl e ↦ rw e h | inr e ↦ rw e (v.owned j) ];
  }

  pub on_stack-Keeps :
      (s : ℕ) (f : Stack V → Stack V)
      → ((x : Stack V) → OwnsFrames n x → OwnsFrames n (f x))
      → Keeps n Any (on_stack s f)
  unfolding on_stack
  on_stack-Keeps s f h = record {
    run = λ p v. (put_stack-Owns p s (f (p.stack_at s)) v (h _ (v.owned s)), tt);
  }

  pub put_frame-Owns :
      (p : Process V) (f : ℕ) (x : Frame V)
      → OwnsAt n p
      → Below n x.deferred_calls
      → OwnsAt n (put_frame f x p)
  put_frame-Owns p f x v h = record {
    counted = v.counted;
    deferred = λ j. elim (Bool-cases (j == f)) [ inl e ↦ rw e h | inr e ↦ rw e (v.deferred j) ];
    owned = v.owned;
  }

  pub put_frame-Keeps :
      (f : ℕ) (g : Process V → Frame V)
      → ((p : Process V) → OwnsAt n p → Below n (Frame.deferred_calls (g p)))
      → Keeps n Any (modify (λ p. put_frame f (g p) p))
  unfolding modify
  put_frame-Keeps f g h = record { run = λ p v. (put_frame-Owns p f (g p) v (h p v), tt) }

  -- A change of the other parts of a process.
  pub modify-Keeps :
      (g : Process V → Process V)
      → ((p : Process V) → OwnsAt n p → OwnsAt n (g p))
      → Keeps n Any (modify g)
  unfolding modify
  modify-Keeps g h = record { run = λ p v. (h p v, tt) }

  -- A frame that is read: its deferred calls are allocated.
  pub frame_of-Keeps :
      (f : ℕ) → Keeps n (λ (x : Frame V). Below n (Frame.deferred_calls x)) (frame_of f)
  frame_of-Keeps f = gets-Keeps _ _ (λ p v. v.deferred f)

  pub stack_of-Keeps : (s : ℕ) → Keeps {V = V} n (OwnsFrames n) (stack_of s)
  stack_of-Keeps s = gets-Keeps _ _ (λ p v. v.owned s)

  -- A read from which nothing follows.
  pub ask-Keeps : {A : Type 0} (f : Process V → A) → Keeps n Any (gets f)
  ask-Keeps f = gets-Keeps Any f (λ p v. tt)

  -- A change of a stack that leaves its frames and the prepared frame alone.
  pub same_frames-Keeps :
      (s : ℕ) (f : Stack V → Stack V)
      → ((x : Stack V) → Stack.frames (f x) ≡ x.frames)
      → ((x : Stack V) → Stack.frame_new (f x) ≡ x.frame_new)
      → Keeps n Any (on_stack s f)
  same_frames-Keeps s f e d = on_stack-Keeps s f (λ x h. record {
    allocated = rw e h.allocated;
    distinct = rw e h.distinct;
    prepared = rw (e, d) h.prepared;
    bounded = rw e h.bounded;
  })

  -- A change of a stack that lets the prepared frame go.
  pub no_frame_new-Keeps :
      (s : ℕ) (f : Stack V → Stack V)
      → ((x : Stack V) → Stack.frames (f x) ≡ x.frames)
      → ((x : Stack V) → Stack.frame_new (f x) ≡ none)
      → Keeps n Any (on_stack s f)
  no_frame_new-Keeps s f e d = on_stack-Keeps s f (λ x h. record {
    allocated = rw e h.allocated;
    distinct = rw e h.distinct;
    prepared = rw d tt;
    bounded = rw e h.bounded;
  })

  -- `on_current`, for such changes.
  pub on_current-Keeps :
      (f : Stack V → Stack V) → ((s : ℕ) → Keeps n Any (on_stack s f)) → Keeps n Any (on_current f)
  unfolding on_current on_stack modify
  on_current-Keeps f h = record { run = λ p v. Keeps.run (h p.stack) p v }

pub Below-append : (n : ℕ) (fs gs : List ℕ) → Below n fs → Below n gs → Below n (fs ++ gs)
Below-append n [] gs h k = k
Below-append n (f ∷ fs) gs h k = (h.0, Below-append n fs gs h.1 k)

pub Below-suc : (n : ℕ) (fs : List ℕ) → Below n fs → Below (suc n) fs
Below-suc n [] h = tt
Below-suc n (f ∷ fs) h = (omega arith, Below-suc n fs h.1)

-- An address that is not allocated is on no stack.
pub mem-Below : (n : ℕ) (fs : List ℕ) → Below n fs → mem n fs ≡ false
mem-Below n [] h = refl
mem-Below n (f ∷ fs) h = ground (arith, mem-Below n fs h.1)
