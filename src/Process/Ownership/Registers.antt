-- ===== src/Process/Ownership/Registers.antt =====
-- Moves between registers, and jumps, keep the invariant of the frames:
-- src/process/instr/registers.cpp and src/process/instr/general.cpp.
use wudoovm.Common.{ℕ, Bool, Option, none, some}
use wudoovm.Kernel.Register.{Register}
use wudoovm.Process.State.{Place}
use wudoovm.Process.Registers.{move_to, opmove, opswap, opdelete, opisnull, opjump}
use wudoovm.Process.Ownership.{
  Keeps, Any, bind-Keeps, pure-Keeps, found-Keeps, throw_if-Keeps, modify-Keeps, ask-Keeps,
}
use wudoovm.Process.Ownership.Places.{
  read_place-Keeps, write_place-Keeps, assign_place-Keeps, give_place-Keeps,
}

module _ {V : Type 0} (n : ℕ) where
  move_to-Keeps : (r : Option Place) (x : Register V) → Keeps {V = V} n Any (move_to r x)
  move_to-Keeps none x = pure-Keeps n Any _ tt
  move_to-Keeps (some r) x = bind-Keeps n (read_place-Keeps n r) λ y _.
      bind-Keeps n (ask-Keeps n _) λ cells _.
        bind-Keeps n
          (modify-Keeps n _
            (λ p v. record { counted = v.counted; deferred = v.deferred; owned = v.owned }))
          λ u _. write_place-Keeps n r _

  pub opmove-Keeps :
      (t : Option Place) (r : Place) (addr : ℕ) → Keeps {V = V} n Any (opmove t r addr)
  unfolding opmove
  opmove-Keeps t r addr = bind-Keeps n (read_place-Keeps n r) λ x _.
      bind-Keeps n (write_place-Keeps n r _)
        λ u _. bind-Keeps n (move_to-Keeps t x) λ w _. pure-Keeps n Any _ tt

  pub opswap-Keeps : (t r : Place) (addr : ℕ) → Keeps {V = V} n Any (opswap t r addr)
  unfolding opswap
  opswap-Keeps t r addr = bind-Keeps n (read_place-Keeps n t) λ x _.
      bind-Keeps n (read_place-Keeps n r) λ y _.
        bind-Keeps n (write_place-Keeps n t _)
          λ u _. bind-Keeps n (write_place-Keeps n r _) λ w _. pure-Keeps n Any _ tt

  pub opdelete-Keeps : (t : Place) (addr : ℕ) → Keeps {V = V} n Any (opdelete t addr)
  unfolding opdelete
  opdelete-Keeps t addr = bind-Keeps n (read_place-Keeps n t) λ x _.
      bind-Keeps n (throw_if-Keeps n _ _)
        λ u _. bind-Keeps n (give_place-Keeps n t) λ v _. pure-Keeps n Any _ tt

  pub opisnull-Keeps :
      (b : Bool → V) (t r : Place) (addr : ℕ) → Keeps {V = V} n Any (opisnull b t r addr)
  unfolding opisnull
  opisnull-Keeps b t r addr =
      bind-Keeps n (read_place-Keeps n r)
        λ x _. bind-Keeps n (assign_place-Keeps n t _) λ u _. pure-Keeps n Any _ tt

  pub opjump-Keeps : (offset here : ℕ) → Keeps {V = V} n Any (opjump offset here)
  unfolding opjump
  opjump-Keeps offset here = bind-Keeps n (ask-Keeps n _) λ x _.
      bind-Keeps n (found-Keeps n Any _ _ (λ a e. tt))
        λ b _. bind-Keeps n (throw_if-Keeps n _ _) λ u _. pure-Keeps n Any _ tt
