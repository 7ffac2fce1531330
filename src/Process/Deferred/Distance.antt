-- ===== src/Process/Deferred/Distance.antt =====
-- Which frames `unwind_call_stack_to` of src/process/stack.cpp leaves.
use wudoovm.Common.{
  ℕ, suc, ◌≡◌, refl, ap, true, false, ◌⊎◌, inl, inr, Option, none, some, List, [], ◌∷◌, ◌++◌,
  length, arith,
}
use wudoovm.Process.Frames.{mem_new}
use wudoovm.Process.Unwinding.{is_frame, frames_above, distance_to}

-- Unwinding to a frame stops at `b`, which is that frame or the bottom of the stack.
abbrev pub StopsAt : Option ℕ → ℕ → List ℕ → Type 0
StopsAt frame b below = (frame ≡ some b) ⊎ (below ≡ [])

not_there :
    (frame : Option ℕ) (a : ℕ) (above : List ℕ)
    → mem_new frame (a ∷ above) ≡ false
    → (is_frame frame a ≡ false) × (mem_new frame above ≡ false)
not_there none a above h = (refl, refl)
not_there (some f) a above h = (ground arith, ground arith)

same_frame : (frame : Option ℕ) (b : ℕ) → frame ≡ some b → is_frame frame b ≡ true
same_frame none b e = absurd (cc)
same_frame (some f) b e = ground arith

stops :
    (frame : Option ℕ) (b : ℕ) (below : List ℕ)
    → StopsAt frame b below
    → frames_above frame b below ≡ 0
unfolding frames_above
stops frame b [] h = refl
stops frame b (c ∷ below) (inl e) = rw (same_frame frame b e) refl
stops frame b (c ∷ below) (inr e) = absurd (cc)

passes :
    (frame : Option ℕ) (a : ℕ) (above : List ℕ) (b : ℕ) (below : List ℕ)
    → mem_new frame (a ∷ above) ≡ false
    → StopsAt frame b below
    → frames_above frame a (above ++ (b ∷ below)) ≡ suc (length above)
unfolding frames_above
passes frame a [] b below h e = rw ((not_there frame a [] h).0) (ap suc (stops frame b below e))
passes frame a (c ∷ above) b below h e =
    let (here, rest) = not_there frame a (c ∷ above) h in
    rw here (ap suc (passes frame c above b below rest e))

-- The frames above the one that unwinding stops at are those that are counted.
pub distance_to-append :
    (frame : Option ℕ) (above : List ℕ) (b : ℕ) (below : List ℕ)
    → mem_new frame above ≡ false
    → StopsAt frame b below
    → distance_to frame (above ++ (b ∷ below)) ≡ some (length above)
unfolding distance_to
distance_to-append frame [] b below h e = ap some (stops frame b below e)
distance_to-append frame (a ∷ above) b below h e = ap some (passes frame a above b below h e)
