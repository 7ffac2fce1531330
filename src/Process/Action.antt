-- ===== src/Process/Action.antt =====
-- A method of a process: it changes the process, and returns or throws. What was written before an
-- exception stays written.
use wudoovm.Common.{ℕ, Bool, true, false, Option, none, some, List, [], ◌∷◌, if◌then◌else◌}
use wudoovm.Common.Outcome.{Outcome, ok, throw, unfinished}
use wudoovm.Kernel.RegisterSet.{Exception, message, message_with, tagged, out_of_range}
use wudoovm.Process.State.{Process, Frame, TryFrame, Stack, Thrown, Part, text, number, update}

-- Only `exception` is a `std::unique_ptr<Exception>`, which the process catches.
pub data Fault (V : Type 0) : Type 0 where
  exception : Thrown V → Fault V
  -- `throw` of a `std::string` or of a literal
  thrown_text : List Part → Fault V
  -- `std::out_of_range` of a map or a vector
  missing : Fault V
  -- the behaviour is undefined: a null pointer, or the back of an empty vector
  undefined : Fault V

module _ {V : Type 0} where
  abbrev pub described : List Part → Fault V
  described d = exception (record { tag = "Exception"; description = d; value = none })

  abbrev pub of_register_set : Exception → Fault V
  of_register_set (message s) = described (text s ∷ [])
  of_register_set (message_with s i) = described (text s ∷ number i ∷ [])
  of_register_set (tagged t i n) =
      exception (record { tag = t; description = number i ∷ number n ∷ []; value = none })
  of_register_set out_of_range = missing

abbrev pub Action : Type 0 → Type 0 → Type 0
Action V A = Process V → Outcome (Fault V) A × Process V

abbrev pub then_run :
    {V A B : Type 0}
    → Outcome (Fault V) A × Process V
    → (A → Action V B)
    → Outcome (Fault V) B × Process V
then_run (ok a, p) f = f a p
then_run (throw e, p) f = (throw e, p)
then_run (unfinished, p) f = (unfinished, p)

infixl 5 ◌>>=◌ ◌>>◌
unfoldable pub ◌>>=◌ : {V A B : Type 0} → Action V A → (A → Action V B) → Action V B
(m >>= f) p = then_run (m p) f

abbrev pub ◌>>◌ : {V B : Type 0} → Action V (Unit {0}) → Action V B → Action V B
m >> k = m >>= λ _. k

module _ {V : Type 0} where
  unfoldable pub pure : {A : Type 0} → A → Action V A
  pure a p = (ok a, p)

  unfoldable pub fail : {A : Type 0} → Fault V → Action V A
  fail e p = (throw e, p)

  unfoldable pub gets : {A : Type 0} → (Process V → A) → Action V A
  gets f p = (ok (f p), p)

  unfoldable pub modify : (Process V → Process V) → Action V (Unit {0})
  modify f p = (ok tt, f p)

  -- `if (c) throw e;`
  unfoldable pub throw_if : Bool → Fault V → Action V (Unit {0})
  unfolding fail pure
  throw_if c e = if c then fail e else pure tt

  -- `if (c) { m }`.
  unfoldable pub when : Bool → Action V (Unit {0}) → Action V (Unit {0})
  unfolding pure
  when true m = m
  when false m = pure tt

  -- What a call of a map or a pointer finds, or a fault.
  unfoldable pub found : {A : Type 0} → Fault V → Option A → Action V A
  unfolding fail pure
  found e none = fail e
  found e (some a) = pure a

  -- A call into a register set, with its exceptions.
  unfoldable pub lift : {A : Type 0} → Outcome Exception A → Action V A
  unfolding fail pure
  lift (ok a) = pure a
  lift (throw e) = fail (of_register_set e)
  lift unfinished = λ p. (unfinished, p)

  -- Writes to the objects.
  abbrev pub put_frame : ℕ → Frame V → Process V → Process V
  put_frame f x p = record p { frame_at = update p.frame_at f x }

  abbrev pub put_stack : ℕ → Stack V → Process V → Process V
  put_stack s x p = record p { stack_at = update p.stack_at s x }

  abbrev pub put_try_frame : ℕ → TryFrame → Process V → Process V
  put_try_frame t x p = record p { try_frame_at = update p.try_frame_at t x }

  -- The stack that runs.
  abbrev pub current : Process V → Stack V
  current p = p.stack_at p.stack

  unfoldable pub on_stack : ℕ → (Stack V → Stack V) → Action V (Unit {0})
  unfolding modify
  on_stack s f = modify (λ p. put_stack s (f (p.stack_at s)) p)

  unfoldable pub on_current : (Stack V → Stack V) → Action V (Unit {0})
  unfolding modify
  on_current f = modify (λ p. put_stack p.stack (f (current p)) p)
