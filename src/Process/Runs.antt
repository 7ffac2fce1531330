-- ===== src/Process/Runs.antt =====
-- How an action runs, by the equations of its first part.
use wudoovm.Common.{ℕ, ◌≡◌, refl, ap, arith}
use wudoovm.Common.Outcome.{Outcome, ok, throw, unfinished}
use wudoovm.Process.State.{Process, Stack}
use wudoovm.Process.Action.{Action, Fault, then_run, put_stack, gets, modify, on_stack, ◌>>=◌, ◌>>◌}

module _ {V A B : Type 0} where
  pub bind_run_ok :
      (m : Action V A) (f : A → Action V B) (p q : Process V) (a : A)
      → m p ≡ (ok a, q)
      → (m >>= f) p ≡ f a q
  unfolding ◌>>=◌
  bind_run_ok m f p q a e = ap (λ r. then_run r f) e

  pub bind_ok :
      (m : Action V A) (f : A → Action V B) (p : Process V) (a : A)
      → (m p).0 ≡ ok a
      → (m >>= f) p ≡ f a (m p).1
  unfolding ◌>>=◌
  bind_ok m f p a e = then_ok (m p) e
    where
      then_ok : (r : Outcome (Fault V) A × Process V) → r.0 ≡ ok a → then_run r f ≡ f a r.1
      then_ok (ok b, q) h = ground arith
      then_ok (throw x, q) h = absurd (cc)
      then_ok (unfinished, q) h = absurd (cc)

  pub bind_gets :
      (g : Process V → A) (f : A → Action V B) (p : Process V) → (gets g >>= f) p ≡ f (g p) p
  unfolding ◌>>=◌ gets
  bind_gets g f p = refl

module _ {V B : Type 0} where
  pub bind_modify :
      (g : Process V → Process V) (m : Action V B) (p : Process V) → (modify g >> m) p ≡ m (g p)
  unfolding ◌>>=◌ modify
  bind_modify g m p = refl

  pub bind_on_stack :
      (s : ℕ) (g : Stack V → Stack V) (m : Action V B) (p : Process V)
      → (on_stack s g >> m) p ≡ m (put_stack s (g (p.stack_at s)) p)
  unfolding ◌>>=◌ on_stack modify
  bind_on_stack s g m p = refl
