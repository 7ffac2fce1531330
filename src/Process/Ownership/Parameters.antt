-- ===== src/Process/Ownership/Parameters.antt =====
-- Parameters and arguments, in src/process/instr/calls.cpp, keep the invariant of the frames.
use wudoovm.Common.{ℕ, Option, none, some}
use wudoovm.Kernel.Value.{Value, Pointer}
use wudoovm.Kernel.RegisterSet.{RegisterSet}
use wudoovm.Process.State.{Place}
use wudoovm.Process.Parameters.{set_arguments, put_argument, opparam, oppamv, assign_target, oparg}
use wudoovm.Process.Ownership.{
  Keeps, Any, bind-Keeps, pure-Keeps, throw_if-Keeps, lift-Keeps, put_frame-Keeps, modify-Keeps,
  frame_of-Keeps, ask-Keeps,
}
use wudoovm.Process.Ownership.Places.{
  back_frame-Keeps, new_frame_of_current-Keeps, assign_place-Keeps, give_place-Keeps,
}

module _ {V : Type 0} (n : ℕ) where
  pub set_arguments-Keeps : (f : ℕ) (rs : RegisterSet V) → Keeps n Any (set_arguments f rs)
  set_arguments-Keeps f rs = put_frame-Keeps n f _ (λ p v. v.deferred f)

  put_argument-Keeps : (f i : ℕ) (v : Pointer V) → Keeps n Any (put_argument f i v)
  put_argument-Keeps f i v = bind-Keeps n (frame_of-Keeps n f) λ x _.
      bind-Keeps n (ask-Keeps n _) λ cells _. bind-Keeps n (lift-Keeps n _) λ r _.
        bind-Keeps n
          (modify-Keeps n _
            (λ p w. record { counted = w.counted; deferred = w.deferred; owned = w.owned }))
          λ u _.
            bind-Keeps n (set_arguments-Keeps f r.1)
              λ t _. bind-Keeps n (lift-Keeps n _) λ rs _. set_arguments-Keeps f rs

  opparam-Keeps :
      (copy : V → V) (i : ℕ) (source : Value V) (addr : ℕ)
      → Keeps n Any (opparam copy i source addr)
  unfolding opparam
  opparam-Keeps copy i source addr = bind-Keeps n (new_frame_of_current-Keeps n) λ f _.
      bind-Keeps n (frame_of-Keeps n f) λ x _.
        bind-Keeps n (throw_if-Keeps n _ _)
          λ u _. bind-Keeps n (put_argument-Keeps f i _) λ t _. pure-Keeps n Any _ tt

  oppamv-Keeps : (i : ℕ) (r : Place) (addr : ℕ) → Keeps {V = V} n Any (oppamv i r addr)
  unfolding oppamv
  oppamv-Keeps i r addr = bind-Keeps n (new_frame_of_current-Keeps n) λ f _.
      bind-Keeps n (frame_of-Keeps n f) λ x _. bind-Keeps n (throw_if-Keeps n _ _) λ u _.
        bind-Keeps n (give_place-Keeps n r) λ v _. bind-Keeps n (put_argument-Keeps f i v) λ t _.
          bind-Keeps n (frame_of-Keeps n f) λ y _.
            bind-Keeps n (lift-Keeps n _)
              λ rs _. bind-Keeps n (set_arguments-Keeps f rs) λ w _. pure-Keeps n Any _ tt

  assign_target-Keeps : (r : Option Place) (v : Pointer V) → Keeps {V = V} n Any (assign_target r v)
  assign_target-Keeps none v = pure-Keeps n Any _ tt
  assign_target-Keeps (some r) v = assign_place-Keeps n r v

  oparg-Keeps : (r : Option Place) (i addr : ℕ) → Keeps {V = V} n Any (oparg r i addr)
  unfolding oparg
  oparg-Keeps r i addr = bind-Keeps n (back_frame-Keeps n) λ f _.
      bind-Keeps n (frame_of-Keeps n f) λ x _. bind-Keeps n (throw_if-Keeps n _ _) λ u _.
        bind-Keeps n (lift-Keeps n _) λ a _.
          bind-Keeps n (set_arguments-Keeps f a.0)
            λ t _. bind-Keeps n (assign_target-Keeps r a.1) λ w _. pure-Keeps n Any _ tt
