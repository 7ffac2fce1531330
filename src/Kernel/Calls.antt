-- ===== src/Kernel/Calls.antt =====
-- Calls of the methods of `Register_set` of src/kernel/registerset.cpp, one after the other.
use wudoovm.Common.{ℕ, ◌≡◌, Bool, false, ◌||◌, leb}
use wudoovm.Common.Outcome.{ok, ◌>>=◌}
use wudoovm.Kernel.Value.{Pointer, Cells}
use wudoovm.Kernel.Register
use wudoovm.Kernel.RegisterSet
use wudoovm.Kernel.RegisterSet.{RegisterSet, Fallible}
use wudoovm.Kernel.Moves.{content}

-- A method with its arguments.
pub data Call (V : Type 0) : Type 0 where
  call_put : ℕ → Pointer V → Call V
  call_pop : ℕ → Call V
  call_set : ℕ → Pointer V → Call V
  call_get : ℕ → Call V
  call_get_const : ℕ → Call V
  call_at : ℕ → Call V
  call_register_at : ℕ → Call V
  call_move : ℕ → ℕ → Call V
  call_swap : ℕ → ℕ → Call V
  call_empty : ℕ → Call V
  call_free : ℕ → Call V
  call_flag : ℕ → ℕ → Call V
  call_unflag : ℕ → ℕ → Call V
  call_clear : ℕ → Call V
  call_is_flagged : ℕ → ℕ → Call V
  call_set_mask : ℕ → ℕ → Call V
  call_get_mask : ℕ → Call V
  call_drop : Call V
  call_copy : (V → V) → Call V

module _ {V : Type 0} where
  -- The cells and the set after a call; what the call returns is left aside.
  unfoldable pub perform : Call V → Cells V → RegisterSet V → Fallible (Cells V × RegisterSet V)
  perform (call_put i o) cells s = RegisterSet.put cells s i o
  perform (call_pop i) cells s = RegisterSet.pop s i >>= λ r. ok (cells, r.0)
  perform (call_set i o) cells s = RegisterSet.set_value cells s i o
  perform (call_get i) cells s = RegisterSet.get s i >>= λ _. ok (cells, s)
  perform (call_get_const i) cells s = RegisterSet.get_const s i >>= λ _. ok (cells, s)
  perform (call_at i) cells s = RegisterSet.at s i >>= λ _. ok (cells, s)
  perform (call_register_at i) cells s = RegisterSet.register_at s i >>= λ _. ok (cells, s)
  perform (call_move i j) cells s = RegisterSet.move cells s i j
  perform (call_swap i j) cells s = RegisterSet.swap s i j >>= λ s'. ok (cells, s')
  perform (call_empty i) cells s = RegisterSet.empty s i >>= λ s'. ok (cells, s')
  perform (call_free i) cells s = RegisterSet.free s i >>= λ s'. ok (cells, s')
  perform (call_flag i m) cells s = RegisterSet.flag s i m >>= λ s'. ok (cells, s')
  perform (call_unflag i m) cells s = RegisterSet.unflag s i m >>= λ s'. ok (cells, s')
  perform (call_clear i) cells s = RegisterSet.clear s i >>= λ s'. ok (cells, s')
  perform (call_is_flagged i m) cells s = RegisterSet.is_flagged s i m >>= λ _. ok (cells, s)
  perform (call_set_mask i m) cells s = RegisterSet.set_mask s i m >>= λ s'. ok (cells, s')
  perform (call_get_mask i) cells s = RegisterSet.get_mask s i >>= λ _. ok (cells, s)
  perform call_drop cells s = RegisterSet.drop s >>= λ s'. ok (cells, s')
  perform (call_copy copy) cells s = RegisterSet.copy_set copy cells s >>= λ r. ok (r.0, s)

  -- What a method cannot work on: an index that is not below the size of the set and, for some of
  -- the methods, a register without a value.
  abbrev pub refuses : Call V → RegisterSet V → Bool
  refuses (call_put i o) s = leb s.registerset_size i
  refuses (call_pop i) s = leb s.registerset_size i
  refuses (call_set i o) s = leb s.registerset_size i
  refuses (call_get i) s = leb s.registerset_size i || Register.empty (content s i)
  refuses (call_get_const i) s = leb s.registerset_size i || Register.empty (content s i)
  refuses (call_at i) s = leb s.registerset_size i
  refuses (call_register_at i) s = leb s.registerset_size i
  refuses (call_move i j) s = leb s.registerset_size i || leb s.registerset_size j
  refuses (call_swap i j) s = leb s.registerset_size i || leb s.registerset_size j
  refuses (call_empty i) s = leb s.registerset_size i
  refuses (call_free i) s = leb s.registerset_size i || Register.empty (content s i)
  refuses (call_flag i m) s = leb s.registerset_size i || Register.empty (content s i)
  refuses (call_unflag i m) s = leb s.registerset_size i || Register.empty (content s i)
  refuses (call_clear i) s = leb s.registerset_size i
  refuses (call_is_flagged i m) s = leb s.registerset_size i
  refuses (call_set_mask i m) s = leb s.registerset_size i || Register.empty (content s i)
  refuses (call_get_mask i) s = leb s.registerset_size i || Register.empty (content s i)
  refuses call_drop s = false
  refuses (call_copy copy) s = false

  -- The sets that calls make of a new set of `n` registers. Between two calls the cells may change.
  -- A call that throws is no step: its checks stand before its first change of the set.
  pub data Reached (n : ℕ) : RegisterSet V → Type 0 where
    constructed : Reached n (RegisterSet.of_size n)
    called :
        {s s' : RegisterSet V}
        → (c : Call V) (cells cells' : Cells V) → Reached n s
        → perform c cells s ≡ ok (cells', s')
        → Reached n s'
