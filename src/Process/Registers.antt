-- ===== src/Process/Registers.antt =====
-- The instructions that move values between registers, and jumps: src/process/instr/registers.cpp
-- and src/process/instr/general.cpp. A target or a source is the register that the operand names.
use wudoovm.Common.{ℕ, ◌+◌, Bool, Option, none, some, [], ◌∷◌, ◌==◌}
use wudoovm.Kernel.Value.{plain}
use wudoovm.Kernel.Register
use wudoovm.Kernel.Register.{Register, register, is_null, move_assign}
use wudoovm.Process.State.{Stack, Place, text, number, hex}
use wudoovm.Process.Action.{
  Action, described, undefined, pure, gets, modify, throw_if, found, current, ◌>>=◌, ◌>>◌,
}
use wudoovm.Process.Places.{read_place, write_place, assign_place, give_place}

module _ {V : Type 0} where
  -- `**target = std::move(value)`.
  abbrev pub move_to : Option Place → Register V → Action V (Unit {0})
  move_to none value = pure tt
  move_to (some target) value = do
    x ← read_place target
    cells ← gets (λ p. p.cells)
    let (cells', x', left) = move_assign cells x value
    modify (λ p. record p { cells = cells' })
    write_place target x'

  -- The register moves with its mask, and leaves the source empty.
  unfoldable pub opmove : Option Place → Place → ℕ → Action V (Option ℕ)
  opmove target source addr = do
    value ← read_place source
    write_place source (register none 0)
    move_to target value
    pure (some addr)

  unfoldable pub opswap : Place → Place → ℕ → Action V (Option ℕ)
  opswap target source addr = do
    x ← read_place target
    y ← read_place source
    let (x', y') = Register.swap x y
    write_place target x'
    write_place source y'
    pure (some addr)

  unfoldable pub opdelete : Place → ℕ → Action V (Option ℕ)
  unfolding give_place
  opdelete target addr = do
    x ← read_place target
    throw_if (is_null x.value) (described (text "delete of null register" ∷ []))
    _ ← give_place target
    pure (some addr)

  unfoldable pub opisnull : (Bool → V) → Place → Place → ℕ → Action V (Option ℕ)
  unfolding assign_place
  opisnull boolean target source addr = do
    x ← read_place source
    assign_place target (some (plain (boolean (is_null x.value))))
    pure (some addr)

  -- The offset is the operand, and `here` the address of the jump.
  unfoldable pub opjump : ℕ → ℕ → Action V (Option ℕ)
  opjump offset here = do
    x ← gets current
    jump_base ← found undefined (Stack.jump_base x)
    throw_if (jump_base + offset == here) (
        described (
          text "aborting: JUMP instruction pointing to itself at byte "
          ∷ number offset
          ∷ text " (0x"
          ∷ hex offset
          ∷ text ")"
          ∷ []))
    pure (some (jump_base + offset))
