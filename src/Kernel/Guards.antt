-- ===== src/Kernel/Guards.antt =====
-- The checks at the start of the methods of `Register_set` in src/kernel/registerset.cpp: what is
-- known of a set and of an index behind them.
use wudoovm.Common.{
  ◌||◌, subst, sym, ℕ, Bool, true, false, ◌≡◌, refl, ap, ◌∙◌, none, some, leb, length-set,
  length-replicate,
}
use wudoovm.Common.Outcome.{ok, throw, unfinished, ◌>>=◌, ◌>>◌}
use wudoovm.Kernel.Value.{Value, Pointer, Cells}
use wudoovm.Kernel.Register
use wudoovm.Kernel.Register.{is_null, Register}
use wudoovm.Kernel.RegisterSet
use wudoovm.Kernel.RegisterSet.{
  RegisterSet, Exception, Fallible, message, message_with, tagged, out_of_range, throw_if,
  register_of, put_register, vacant, set_in,
}
use wudoovm.Kernel.Bounds.{IsWellFormed}
use wudoovm.Kernel.Moves.{content}

-- An exception that a method of the set throws by itself.
abbrev pub thrown_here : Exception → Bool
thrown_here (message t) = true
thrown_here (message_with t i) = true
thrown_here (tagged t i n) = true
thrown_here out_of_range = false

-- A result that is `P` if `refused` is false, and an exception of the set's own if it is true.
abbrev pub Verdict : {A : Type 0} → Bool → (A → Type 0) → Fallible A → Type 0
Verdict refused P (ok a) = (refused ≡ false) × P a
Verdict refused P (throw e) = (refused ≡ true) × (thrown_here e ≡ true)
Verdict refused P unfinished = ⊥

pub bind-Verdict :
    {A B : Type 0} (refused : Bool) (P : A → Type 0) (Q : B → Type 0) (r : Fallible A)
    (f : A → Fallible B)
    → Verdict refused P r
    → ((a : A) → P a → Verdict false Q (f a))
    → Verdict refused Q (r >>= f)
bind-Verdict refused P Q (ok a) f h k = subst (λ t. Verdict t Q (f a)) (sym h.0) (k a h.1)
bind-Verdict refused P Q (throw e) f h k = h
bind-Verdict refused P Q unfinished f h k = h

pub guard-Verdict :
    {A : Type 0} (refused : Bool) (Q : A → Type 0) (c : Bool) (e : Exception) (m : Fallible A)
    → thrown_here e ≡ true
    → (c ≡ false → Verdict refused Q m)
    → Verdict (c || refused) Q (throw_if c e >> m)
guard-Verdict refused Q true e m h k = (refl, h)
guard-Verdict refused Q false e m h k = k refl

-- No further reason to refuse.
pub last-Verdict :
    {A : Type 0} (Q : A → Type 0) (c : Bool) (r : Fallible A)
    → Verdict (c || false) Q r
    → Verdict c Q r
last-Verdict Q true r h = h
last-Verdict Q false r h = h

abbrev pub Any : {A : Type 0} → A → Type 0
Any a = Unit {0}

pub of_size-Sized :
    (V : Type 0) (k : ℕ)
    → ((RegisterSet.of_size {V = V} k).registerset_size ≡ k)
      × IsWellFormed (RegisterSet.of_size {V = V} k)
unfolding RegisterSet.of_size
of_size-Sized V k = (refl, length-replicate k vacant)

module _ {V : Type 0} (n : ℕ) where
  -- A well-formed set of `n` registers.
  abbrev pub Sized : RegisterSet V → Type 0
  Sized s = (s.registerset_size ≡ n) × IsWellFormed s

  abbrev pub Kept : Cells V × RegisterSet V → Type 0
  Kept r = Sized r.1

  pub put_register-Sized :
      (s : RegisterSet V) (i : ℕ) (r : Register V) → Sized s → Sized (put_register s i r)
  put_register-Sized s i r (size, wf) = (size, length-set s.registers i r ∙ wf)

  -- The check of an index, and the register there.
  pub at_register-Verdict :
      {A : Type 0} (refused : Bool) (Q : A → Type 0) (s : RegisterSet V) (i : ℕ) (e : Exception)
      (f : Register V → Fallible A)
      → Sized s
      → thrown_here e ≡ true
      → Verdict refused Q (f (content s i))
      → Verdict
          (leb s.registerset_size i || refused)
          Q
          (throw_if (leb s.registerset_size i) e >> (register_of s i >>= f))
  at_register-Verdict refused Q s i e f (size, wf) h k =
      guard-Verdict refused Q (leb s.registerset_size i) e (register_of s i >>= f) h
        (λ inside. let b = ap (λ w. leb w i) wf ∙ inside in rw b k)

  -- A method with no other check than that of the index.
  pub any_register-Verdict :
      {A : Type 0} (Q : A → Type 0) (s : RegisterSet V) (i : ℕ) (e : Exception) (f : Register V → A)
      → Sized s
      → thrown_here e ≡ true
      → Q (f (content s i))
      → Verdict
          (leb s.registerset_size i)
          Q
          (throw_if (leb s.registerset_size i) e >> (register_of s i >>= λ r. ok (f r)))
  any_register-Verdict Q s i e f z h k =
      last-Verdict Q (leb s.registerset_size i) _
        (at_register-Verdict false Q s i e _ z h (refl, k))

  -- A method that wants a register with a value.
  pub full_register-Verdict :
      {A : Type 0} (Q : A → Type 0) (s : RegisterSet V) (i : ℕ) (e e' : Exception)
      (f : Register V → A)
      → Sized s
      → thrown_here e ≡ true
      → thrown_here e' ≡ true
      → Q (f (content s i))
      → Verdict (leb s.registerset_size i || Register.empty (content s i)) Q (
          throw_if (leb s.registerset_size i) e
          >> (register_of s i >>= λ r. throw_if (Register.empty r) e' >> ok (f r)))
  full_register-Verdict Q s i e e' f z h h' k =
      at_register-Verdict (Register.empty (content s i)) Q s i e _ z h (
        last-Verdict Q (Register.empty (content s i)) _
          (guard-Verdict false Q (Register.empty (content s i)) e' _ h' λ full. (refl, k)))

  pub held-Verdict :
      (v : Pointer V) (e : Exception)
      → thrown_here e ≡ true
      → Verdict {A = Value V} (is_null v) Any (elim v [ none ↦ throw e | some x ↦ ok x ])
  held-Verdict none e h = (refl, h)
  held-Verdict (some x) e h = (refl, tt)
