-- ===== src/Process/Code.antt =====
-- What a process reads of the kernel: the tables of entry points in src/kernel/kernel.cpp, and the
-- bytes of the loaded bytecode, where the tables say at which address a function begins.
use Prim.Native.String.{String}
use text.Mathlib.Text.{◌==◌ as str_eq}
use wudoovm.Common.{
  ℕ, ◌+◌, Bool, true, false, ◌||◌, Option, none, some, List, [], ◌∷◌, if◌then◌else◌,
}

-- `std::map<std::string, T>`.
abbrev pub Table {ℓ} : Type ℓ → Type ℓ
Table T = List (String × T)

module _ {ℓ} {T : Type ℓ} where
  abbrev pub lookup : Table T → String → Option T
  lookup [] k = none
  lookup ((j, v) ∷ t) k = if str_eq j k then some v else lookup t k

  abbrev pub is_some : Option T → Bool
  is_some none = false
  is_some (some v) = true

  -- `t.count(k)`.
  abbrev pub count : Table T → String → Bool
  count t k = is_some (lookup t k)

  -- `t[k] = v`.
  abbrev pub insert : Table T → String → T → Table T
  insert [] k v = (k, v) ∷ []
  insert ((j, w) ∷ t) k v = if str_eq j k then (k, v) ∷ t else (j, w) ∷ insert t k v

pub record Kernel : Type 0 where
  pub bytecode : ℕ
  pub function_addresses : Table ℕ
  pub block_addresses : Table ℕ
  -- the name of a module, and an address
  pub linked_functions : Table (String × ℕ)
  pub linked_blocks : Table (String × ℕ)
  pub foreign_functions : Table ℕ
  -- where the bytecode of a module is
  pub linked_modules : Table ℕ
  pub byte_at : ℕ → ℕ

unfoldable pub is_native_function : Kernel → String → Bool
is_native_function k name = count k.function_addresses name || count k.linked_functions name

unfoldable pub is_foreign_function : Kernel → String → Bool
is_foreign_function k name = count k.foreign_functions name

unfoldable pub is_block : Kernel → String → Bool
is_block k name = count k.block_addresses name || count k.linked_blocks name

-- The base of the module that a linked name belongs to; `none` is `std::out_of_range`.
abbrev pub base_of : Kernel → Option (String × ℕ) → Option (ℕ × ℕ)
base_of k none = none
base_of k (some (name, entry_point)) = elim (lookup k.linked_modules name) [
  | none ↦ none
  | some module_base ↦ some (entry_point, module_base)
]

abbrev pub local_or_linked : Kernel → Option ℕ → Option (String × ℕ) → Option (ℕ × ℕ)
local_or_linked k (some offset) linked = some (k.bytecode + offset, k.bytecode)
local_or_linked k none linked = base_of k linked

-- The entry point and the base of its module; `none` is `std::out_of_range`.
unfoldable pub get_entry_point_of : Kernel → String → Option (ℕ × ℕ)
get_entry_point_of k name =
    local_or_linked k (lookup k.function_addresses name) (lookup k.linked_functions name)

unfoldable pub get_entry_point_of_block : Kernel → String → Option (ℕ × ℕ)
get_entry_point_of_block k name =
    local_or_linked k (lookup k.block_addresses name) (lookup k.linked_blocks name)
