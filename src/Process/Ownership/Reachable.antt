-- ===== src/Process/Ownership/Reachable.antt =====
-- The invariant of the frames in every process that a new one can become, and what follows from
-- it. src/process.cpp and src/process/stack.cpp.
use wudoovm.Common.{ℕ, ◌≡◌, ◌≢◌, refl, sym, subst, List, [], ◌==◌, Bool-cases, inl, inr, arith}
use wudoovm.Common.Outcome.{throw}
use wudoovm.Process.Code.{Kernel}
use wudoovm.Process.State.{Process, Frame, Part}
use wudoovm.Process.Action.{thrown_text}
use wudoovm.Process.Prepared.{push_prepared_frame}
use wudoovm.Process.Tick.{Instruction, Values}
use wudoovm.Process.Life.{
  create, start, wakeup, run_code, Step, starts, ticks, wakes, raises, Reach, here, next,
}
use wudoovm.Process.Ownership.{
  IsValid, Keeps, Any, bind-Keeps, pure-Keeps, found-Keeps, throw_if-Keeps, ask-Keeps,
  frame_of-Keeps, same_frames-Keeps, on_current-Keeps,
}
use wudoovm.Process.Ownership.Stacks.{adjust_jump_base_for-Keeps}
use wudoovm.Process.Ownership.Pushes.{push_prepared_frame-ne-corruption}
use wudoovm.Process.Ownership.Ticks.{
  Preserves, of_Keeps, dispatch-Preserves, tick-Preserves, raise-Keeps,
}

module _ {V : Type 0} where
  create-IsValid : (frm : Frame V) → frm.deferred_calls ≡ [] → IsValid (create frm)
  unfolding create
  create-IsValid frm e = record {
    counted = refl;
    deferred =
        λ f. elim (Bool-cases (f == 0)) [ inl first ↦ rw (first, e) tt | inr rest ↦ rw rest tt ];
    owned = λ s. elim (Bool-cases (s == 0)) [
      | inl first ↦ rw first (record {
        allocated = (omega arith, tt);
        distinct = (refl, tt);
        prepared = tt;
        bounded = omega arith;
      })
      | inr rest ↦
          rw rest (record { allocated = tt; distinct = tt; prepared = tt; bounded = omega arith })
    ];
  }

  start-Keeps : (n : ℕ) (k : Kernel) → Keeps {V = V} n Any (start k)
  unfolding start
  start-Keeps n k = bind-Keeps n (ask-Keeps n _) λ s _. bind-Keeps n (ask-Keeps n _) λ x _.
      bind-Keeps n (found-Keeps n Any _ _ (λ a e. tt)) λ f _.
        bind-Keeps n (frame_of-Keeps n f) λ y _. bind-Keeps n (throw_if-Keeps n _ _) λ u _.
          bind-Keeps n (adjust_jump_base_for-Keeps n k s y.function_name) λ e _.
            bind-Keeps n
              (on_current-Keeps n _ (λ j. same_frames-Keeps n j _ (λ z. refl) (λ z. refl)))
              λ w _. pure-Keeps n Any _ tt

module _ {V : Type 0} (values : Values V) (k : Kernel) (code : ℕ → Instruction V × ℕ) where
  run_code-Preserves : (a : ℕ) → Preserves (run_code values k code a)
  unfolding run_code
  run_code-Preserves a = dispatch-Preserves values k (code a).0 a (code a).1

  Step-IsValid : (p q : Process V) → Step values k code p q → IsValid p → IsValid q
  unfolding wakeup
  Step-IsValid p q (starts e) v =
      subst IsValid (sym e) (of_Keeps (start k) (λ n. start-Keeps n k) p v)
  Step-IsValid p q (ticks e) v =
      subst IsValid (sym e) (tick-Preserves k (run_code values k code) run_code-Preserves p v)
  Step-IsValid p q (wakes e) v =
      subst IsValid (sym e) (record { counted = refl; deferred = v.deferred; owned = v.owned })
  Step-IsValid p q (raises x e) v = subst IsValid (sym e) (of_Keeps _ (λ n. raise-Keeps n x) p v)

  -- Every process that a new one reaches is valid: no stack holds a frame twice, the frame that a
  -- stack has prepared is not yet on it, and frames, also the deferred ones, are allocated. A
  -- first frame that has no deferred calls is assumed.
  pub Reach-IsValid :
      (frm : Frame V) (q : Process V)
      → frm.deferred_calls ≡ []
      → Reach values k code (create frm) q
      → IsValid q
  Reach-IsValid frm q e here = create-IsValid frm e
  Reach-IsValid frm q e (next {q = p} r s) = Step-IsValid p q s (Reach-IsValid frm p e r)

  -- In every process that a new one reaches, pushing a prepared frame never ends in the text that
  -- reports a corrupted stack, on any stack of the process.
  pub push-ne-corruption :
      (frm : Frame V) (q : Process V)
      → frm.deferred_calls ≡ []
      → Reach values k code (create frm) q
      → (s : ℕ) (d : List Part) → (push_prepared_frame s q).0 ≢ throw (thrown_text d)
  push-ne-corruption frm q e r s d =
      push_prepared_frame-ne-corruption q.next_frame s q (Reach-IsValid frm q e r) d
