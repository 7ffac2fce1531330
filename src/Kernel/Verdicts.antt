-- ===== src/Kernel/Verdicts.antt =====
-- When the methods `set`, `pop`, `register_at`, `move` and `swap` of `Register_set` in
-- src/kernel/registerset.cpp throw.
use wudoovm.Common.{◌||◌, false, Bool-cases, ℕ, inl, inr, refl, sym, ap, subst, ◌∙◌, leb}
use wudoovm.Kernel.Value.{Pointer, Cells}
use wudoovm.Kernel.RegisterSet
use wudoovm.Kernel.RegisterSet.{
  RegisterSet, Exception, Fallible, out_of_range, throw_if, register_of, put_register,
}
use wudoovm.Kernel.Guards.{
  Verdict, Any, Sized, Kept, bind-Verdict, guard-Verdict, last-Verdict, put_register-Sized,
}

module _ {V : Type 0} (n : ℕ) where
  pub set_value-Verdict :
      (cells : Cells V) (s : RegisterSet V) (i : ℕ) (o : Pointer V)
      → Sized n s
      → Verdict (leb s.registerset_size i) (Kept n) (RegisterSet.set_value cells s i o)
  unfolding RegisterSet.set_value
  set_value-Verdict cells s i o (size, wf) = elim (Bool-cases (leb s.registerset_size i)) [
    | inl out ↦ let b = ap (λ w. leb w i) wf ∙ out in rw (out, b) (refl, refl)
    | inr inside ↦
        let b = ap (λ w. leb w i) wf ∙ inside in
        rw (inside, b) (refl, put_register-Sized n s i _ (size, wf))
  ]

  pub pop-Verdict :
      (s : RegisterSet V) (i : ℕ)
      → Sized n s
      → Verdict (leb s.registerset_size i) (λ r. Sized n r.0) (RegisterSet.pop s i)
  unfolding RegisterSet.pop RegisterSet.at RegisterSet.empty
  pop-Verdict s i (size, wf) = elim (Bool-cases (leb s.registerset_size i)) [
    | inl out ↦ rw out (refl, refl)
    | inr inside ↦
        let b = ap (λ w. leb w i) wf ∙ inside in
        rw (inside, b) (refl, put_register-Sized n s i _ (size, wf))
  ]

  pub register_at-Verdict :
      (s : RegisterSet V) (i : ℕ)
      → Sized n s
      → Verdict (leb s.registerset_size i) Any (RegisterSet.register_at s i)
  unfolding RegisterSet.register_at
  register_at-Verdict s i (size, wf) = elim (Bool-cases (leb s.registerset_size i)) [
    | inl out ↦ rw out (refl, refl)
    | inr inside ↦ let b = ap (λ w. leb w i) wf ∙ inside in rw (inside, b) (refl, tt)
  ]

  pub move-Verdict :
      (cells : Cells V) (s : RegisterSet V) (i j : ℕ)
      → Sized n s
      → Verdict
          (leb s.registerset_size i || leb s.registerset_size j)
          (Kept n)
          (RegisterSet.move cells s i j)
  unfolding RegisterSet.move
  move-Verdict cells s i j z =
      guard-Verdict (leb s.registerset_size j) (Kept n) (leb s.registerset_size i) _ _ refl λ in_i.
        last-Verdict (Kept n) (leb s.registerset_size j) _ (
          guard-Verdict false (Kept n) (leb s.registerset_size j) _ _ refl λ in_j.
            bind-Verdict false (λ r. Sized n r.0) (Kept n) (RegisterSet.pop s i) _
              (subst (λ t. Verdict t (λ r. Sized n r.0) (RegisterSet.pop s i)) in_i
                (pop-Verdict s i z))
              λ r z'.
                let same = ap (λ w. leb w j) (z'.0 ∙ sym z.0) ∙ in_j in
                subst (λ t. Verdict t (Kept n) (RegisterSet.set_value cells r.0 j r.1)) same
                  (set_value-Verdict cells r.0 j r.1 z'))

  pub swap-Verdict :
      (s : RegisterSet V) (i j : ℕ)
      → Sized n s
      → Verdict
          (leb s.registerset_size i || leb s.registerset_size j)
          (Sized n)
          (RegisterSet.swap s i j)
  unfolding RegisterSet.swap
  swap-Verdict s i j z =
      guard-Verdict (leb s.registerset_size j) (Sized n) (leb s.registerset_size i) _ _ refl λ _.
        last-Verdict (Sized n) (leb s.registerset_size j) _ (
          guard-Verdict false (Sized n) (leb s.registerset_size j) _ _ refl λ _.
            (refl, put_register-Sized n (put_register s i _) j _ (put_register-Sized n s i _ z)))
