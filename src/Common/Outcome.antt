-- ===== src/Common/Outcome.antt =====
-- What a call of fallible C++ code ends in: a value, an exception, or, for a loop that is run
-- on fuel, no end within the fuel.

pub data Outcome {ℓ κ} (E : Type ℓ) (A : Type κ) : Type (ℓ ⊔ κ) where
  ok : A → Outcome E A
  throw : E → Outcome E A
  unfinished : Outcome E A

infixl 5 ◌>>=◌ ◌>>◌
abbrev pub ◌>>=◌ {ℓ κ μ} :
    {E : Type ℓ} {A : Type κ} {B : Type μ} → Outcome E A → (A → Outcome E B) → Outcome E B
ok a >>= f = f a
throw e >>= f = throw e
unfinished >>= f = unfinished

abbrev pub ◌>>◌ {ℓ μ} : {E : Type ℓ} {B : Type μ} → Outcome E (Unit {0}) → Outcome E B → Outcome E B
m >> k = m >>= λ _. k

-- `try { m } catch (...) { throw e; }`
abbrev pub rethrow {ℓ κ} : {E : Type ℓ} {A : Type κ} → E → Outcome E A → Outcome E A
rethrow e (ok a) = ok a
rethrow e (throw _) = throw e
rethrow e unfinished = unfinished
