-- ===== src/Process/Pushing.antt =====
-- Every branch of `Stack::push_prepared_frame` in src/process/stack.cpp.
use wudoovm.Common.{
  ◌⊎◌, inl, inr, Bool-cases, ℕ, ◌≤◌, ◌<◌, ◌≡◌, refl, ap, true, false, none, some, [], ◌∷◌, length,
  arith, ◌==◌, ltb,
}
use wudoovm.Common.Outcome.{ok, throw}
use wudoovm.Process.State.{Process, Frame, Stack, text, number}
use wudoovm.Process.Action.{
  described, undefined, then_run, ◌>>◌, fail, found, gets, modify, on_stack, pure, put_stack, when,
  ◌>>=◌,
}
use wudoovm.Process.Frames.{emplace_back, mem, mem_new, set_frames}
use wudoovm.Process.Prepared.{take_frame_new, push_prepared_frame}

==_refl : (a : ℕ) → (a == a) ≡ true
==_refl a = ground arith

-- The prepared frame is on the stack.
abbrev pub pushed : {V : Type 0} → ℕ → ℕ → Process V → Process V
pushed s f p =
    let p1 = put_stack s (record (p.stack_at s) { frame_new = none }) p in
    put_stack s (set_frames (f ∷ Stack.frames (p1.stack_at s)) (p1.stack_at s)) p1

module _ {V : Type 0} (s : ℕ) (p : Process V) (f : ℕ)
    (new : Stack.frame_new (p.stack_at s) ≡ some f) where
  push_new_run : (take_frame_new s >>= λ g. emplace_back s g) p ≡ (ok tt, pushed s f p)
  unfolding ◌>>=◌ gets found pure on_stack modify emplace_back
  push_new_run =
      ap
        (λ o.
          then_run
            (then_run (found undefined o p)
              (λ g. on_stack s (λ y. record y { frame_new = none }) >> pure g))
            (λ g. emplace_back s g))
        new

  pub push_with_room :
      mem f (Stack.frames (p.stack_at s)) ≡ false
      → length (Stack.frames (p.stack_at s)) ≤ 8192
      → push_prepared_frame s p ≡ (ok tt, pushed s f p)
  unfolding push_prepared_frame ◌>>=◌ gets when pure
  push_with_room absent room =
      let fresh : mem_new (Stack.frame_new (p.stack_at s)) (Stack.frames (p.stack_at s)) ≡ false =
        rw new absent in
      let small : ltb 8192 (length (Stack.frames (p.stack_at s))) ≡ false = ground arith in
      rw (small, fresh) push_new_run

  -- A stack of up to 8192 frames, on which the prepared frame is not yet, takes the frame; a
  -- larger one throws an exception that names the function, and the process stays as it is.
  pub push_prepared_frame-cases :
      mem f (Stack.frames (p.stack_at s)) ≡ false
      → ((length (Stack.frames (p.stack_at s)) ≤ 8192)
          × (q : Process V) × (push_prepared_frame s p ≡ (ok tt, q))
          × (q.stack_at s ≡ record (p.stack_at s) {
            frames = f ∷ Stack.frames (p.stack_at s);
            frame_new = none;
          }))
        ⊎ ((8192 < length (Stack.frames (p.stack_at s)))
            × (push_prepared_frame s p ≡ (
              throw (
                  described (
                    text "stack size ("
                    ∷ number 8192
                    ∷ text ") exceeded with call to '"
                    ∷ text (Frame.function_name (p.frame_at f))
                    ∷ text "'"
                    ∷ [])),
              p,
            )))
  unfolding push_prepared_frame emplace_back ◌>>=◌ gets found when fail pure on_stack modify
  push_prepared_frame-cases absent =
      elim (Bool-cases (ltb 8192 (length (Stack.frames (p.stack_at s))))) [
        | inl big ↦ inr (ground arith, rw (big, new) refl)
        | inr small ↦
            let room : length (Stack.frames (p.stack_at s)) ≤ 8192 = ground arith in
            inl (room, pushed s f p, push_with_room absent room, rw (==_refl s) refl)
      ]
