-- ===== src/Process/Ownership/Places.antt =====
-- Reads and writes of registers, in src/process.cpp, keep the invariant of the frames.
use Prim.Native.String.{String}
use wudoovm.Common.{ℕ, ◌<◌, Bool}
use wudoovm.Common.Int.{ℤ, pos, negsuc}
use wudoovm.Codec.Operands.{
  RegisterAccess, AccessSpecifier, direct, register_indirect, pointer_dereference, global, local,
  static, arguments, parameters, closure_local, other,
}
use wudoovm.Codec.Operands
use wudoovm.Kernel.Value.{Pointer}
use wudoovm.Kernel.Register.{Register}
use wudoovm.Kernel.RegisterSet.{RegisterSet}
use wudoovm.Process.State.{Process, Place}
use wudoovm.Process.Places.{
  back_frame, new_frame_of_current, check_index, ensure_static_registers, local_at, argument_at,
  static_at, register_at, put_set, read_place, write_place, assign_place, give_place, index_from,
  follow, fetch_register,
}
use wudoovm.Process.Ownership.{
  OwnsAt, OwnsFrames, Keeps, Any, bind-Keeps, pure-Keeps, fail-Keeps, gets-Keeps, found-Keeps,
  throw_if-Keeps, when-Keeps, modify-Keeps, frame_of-Keeps, ask-Keeps, put_frame-Owns,
}
use wudoovm.Process.Ownership.Stacks.{back-Keeps}

module _ {V : Type 0} (n : ℕ) where
  pub back_frame-Keeps : Keeps {V = V} n Any back_frame
  back_frame-Keeps = bind-Keeps n (ask-Keeps n _) λ s _. back-Keeps n s

  -- The prepared frame is an allocated one.
  pub new_frame_of_current-Keeps : Keeps {V = V} n (λ f. f < n) new_frame_of_current
  new_frame_of_current-Keeps =
      bind-Keeps n (gets-Keeps n (OwnsFrames n) _ (λ p v. v.owned p.stack))
        λ x h. found-Keeps n _ _ _ (λ f e. (rw e at h.prepared).0)

  check_index-Keeps : (rs : RegisterSet V) (i : ℕ) → Keeps {V = V} n Any (check_index rs i)
  check_index-Keeps rs i = throw_if-Keeps n _ _

  ensure_static_registers-Keeps :
      (name : String) → Keeps {V = V} n Any (ensure_static_registers name)
  unfolding ensure_static_registers
  ensure_static_registers-Keeps name = record {
    run = λ p v.
        Keeps.run
          (when-Keeps n _ _ (
            modify-Keeps n _
              (λ q w. record { counted = w.counted; deferred = w.deferred; owned = w.owned })))
          p v;
  }

  local_at-Keeps : (f i : ℕ) → Keeps {V = V} n Any (local_at f i)
  local_at-Keeps f i = bind-Keeps n (frame_of-Keeps n f) λ x _.
      bind-Keeps n (found-Keeps n Any _ _ (λ a e. tt))
        λ rs _. bind-Keeps n (check_index-Keeps rs i) λ u _. pure-Keeps n Any _ tt

  argument_at-Keeps : (f i : ℕ) → Keeps {V = V} n Any (argument_at f i)
  argument_at-Keeps f i =
      bind-Keeps n (frame_of-Keeps n f)
        λ x _. bind-Keeps n (check_index-Keeps x.arguments i) λ u _. pure-Keeps n Any _ tt

  static_at-Keeps : (f i : ℕ) → Keeps {V = V} n Any (static_at f i)
  unfolding static_at
  static_at-Keeps f i = bind-Keeps n (frame_of-Keeps n f) λ x _.
      bind-Keeps n (ensure_static_registers-Keeps x.function_name) λ u _.
        bind-Keeps n (ask-Keeps n _) λ table _.
          bind-Keeps n (found-Keeps n Any _ _ (λ a e. tt))
            λ rs _. bind-Keeps n (check_index-Keeps rs i) λ w _. pure-Keeps n Any _ tt

  register_at-Keeps : (i : ℕ) (rs : Operands.RegisterSet) → Keeps {V = V} n Any (register_at i rs)
  unfolding register_at
  register_at-Keeps i local = bind-Keeps n back_frame-Keeps λ f _. local_at-Keeps f i
  register_at-Keeps i static = bind-Keeps n back_frame-Keeps λ f _. static_at-Keeps f i
  register_at-Keeps i global =
      bind-Keeps n (ask-Keeps n _)
        λ rs _. bind-Keeps n (check_index-Keeps rs i) λ u _. pure-Keeps n Any _ tt
  register_at-Keeps i parameters = bind-Keeps n back_frame-Keeps λ f _. argument_at-Keeps f i
  register_at-Keeps i arguments =
      bind-Keeps n new_frame_of_current-Keeps λ f _. argument_at-Keeps f i
  register_at-Keeps i closure_local = fail-Keeps n Any _
  register_at-Keeps i (other m) = fail-Keeps n Any _

  put_set-Owns :
      (r : Place) (rs : RegisterSet V) (p : Process V) → OwnsAt n p → OwnsAt n (put_set r rs p)
  put_set-Owns (Place.local f i) rs p v = put_frame-Owns n p f _ v (v.deferred f)
  put_set-Owns (Place.argument f i) rs p v = put_frame-Owns n p f _ v (v.deferred f)
  put_set-Owns (Place.static name i) rs p v = record {
    counted = v.counted;
    deferred = v.deferred;
    owned = v.owned;
  }
  put_set-Owns (Place.global i) rs p v = record {
    counted = v.counted;
    deferred = v.deferred;
    owned = v.owned;
  }

  pub read_place-Keeps : (r : Place) → Keeps {V = V} n Any (read_place r)
  read_place-Keeps r =
      bind-Keeps n (ask-Keeps n _)
        λ o _. bind-Keeps n (found-Keeps n Any _ _ (λ a e. tt)) λ rs _. pure-Keeps n Any _ tt

  pub write_place-Keeps : (r : Place) (x : Register V) → Keeps {V = V} n Any (write_place r x)
  write_place-Keeps r x = bind-Keeps n (ask-Keeps n _) λ o _.
      bind-Keeps n (found-Keeps n Any _ _ (λ a e. tt))
        λ rs _. modify-Keeps n _ (λ p v. put_set-Owns r _ p v)

  pub assign_place-Keeps : (r : Place) (o : Pointer V) → Keeps {V = V} n Any (assign_place r o)
  unfolding assign_place
  assign_place-Keeps r o = bind-Keeps n (read_place-Keeps r) λ x _.
      bind-Keeps n (ask-Keeps n _) λ cells _.
        bind-Keeps n
          (modify-Keeps n _
            (λ p v. record { counted = v.counted; deferred = v.deferred; owned = v.owned }))
          λ u _. write_place-Keeps r _

  pub give_place-Keeps : (r : Place) → Keeps {V = V} n Any (give_place r)
  unfolding give_place
  give_place-Keeps r =
      bind-Keeps n (read_place-Keeps r)
        λ x _. bind-Keeps n (write_place-Keeps r _) λ u _. pure-Keeps n Any _ tt

  index_from-Keeps : (z : ℤ) → Keeps {V = V} n Any (index_from z)
  index_from-Keeps (pos i) = pure-Keeps n Any _ tt
  index_from-Keeps (negsuc i) = fail-Keeps n Any _

  module _ (as_integer : Pointer V → ℤ) where
    follow-Keeps :
        (a : AccessSpecifier) (rs : Operands.RegisterSet) (r : Place)
        → Keeps n Any (follow as_integer a rs r)
    unfolding follow
    follow-Keeps direct rs r = pure-Keeps n Any _ tt
    follow-Keeps pointer_dereference rs r = pure-Keeps n Any _ tt
    follow-Keeps register_indirect rs r =
        bind-Keeps n (read_place-Keeps r)
          λ x _. bind-Keeps n (index_from-Keeps _) λ i _. register_at-Keeps i rs

    pub fetch_register-Keeps :
        (b : Bool) (reg : RegisterAccess) → Keeps n Any (fetch_register as_integer b reg)
    unfolding fetch_register
    fetch_register-Keeps b reg = bind-Keeps n (throw_if-Keeps n _ _) λ u _.
        bind-Keeps n (register_at-Keeps reg.index reg.set) λ r _. follow-Keeps reg.access reg.set r
