-- ===== src/MotionBuffer/Calls.antt =====
-- Sequences of calls of the motion buffer (src/motion_buffer.cpp) against the bounded queue.
use bisso_e350_controller.Base.{ℕ, ◌≡◌, refl, Bool, false, Option, none, List, [], ◌∷◌}
use bisso_e350_controller.Base.Int.{ℤ}
use bisso_e350_controller.MotionBuffer.Ring.{
  MotionCmd, MotionBuffer, Lock, no_mutex, timed_out, granted, push, pop, peek, clear,
}
use bisso_e350_controller.MotionBuffer.Fifo.{enqueue, dequeue, front}
use bisso_e350_controller.MotionBuffer.Refinement.{
  IsValid, contents, command, push_refines, pop_refines, clear_refines,
}

-- A call, with what its attempt to take the mutex meets, and what the caller sees of it.
pub data Call (F : Type 0) : Type 0 where
  put : Lock → F → F → F → F → F → Call F
  get : Lock → Call F
  look : Lock → Call F
  wipe : Lock → Call F

pub data Reply (F : Type 0) : Type 0 where
  accepted : Bool → Reply F
  got : Option (MotionCmd F) → Reply F
  silent : Reply F

module _ {F : Type 0} (to_counts : ℕ → F → ℤ) where
  unfoldable pub ring_run : List (Call F) → MotionBuffer F → List (Reply F)
  ring_run [] b = []
  ring_run (put l x y z a v ∷ calls) b =
      let (b', done) = push to_counts l x y z a v b in accepted done ∷ ring_run calls b'
  ring_run (get l ∷ calls) b = let (b', cmd, ready) = pop l b in got cmd ∷ ring_run calls b'
  ring_run (look l ∷ calls) b = got (peek l b) ∷ ring_run calls b
  ring_run (wipe l ∷ calls) b = silent ∷ ring_run calls (clear l b)

module _ {F : Type 0} (blank : MotionCmd F) (to_counts : ℕ → F → ℤ) where
  -- The same calls of the queue: one that does not get the mutex does nothing.
  unfoldable pub queue_run : List (Call F) → List (MotionCmd F) → List (Reply F)
  queue_run [] q = []
  queue_run (put granted x y z a v ∷ calls) q =
      let (q', done) = enqueue (command blank to_counts x y z a v) q in
      accepted done ∷ queue_run calls q'
  queue_run (put _ x y z a v ∷ calls) q = accepted false ∷ queue_run calls q
  queue_run (get granted ∷ calls) q = let (q', cmd) = dequeue q in got cmd ∷ queue_run calls q'
  queue_run (get _ ∷ calls) q = got none ∷ queue_run calls q
  queue_run (look granted ∷ calls) q = got (front q) ∷ queue_run calls q
  queue_run (look _ ∷ calls) q = got none ∷ queue_run calls q
  queue_run (wipe granted ∷ calls) q = silent ∷ queue_run calls []
  queue_run (wipe _ ∷ calls) q = silent ∷ queue_run calls q

  -- No sequence of calls, granted the mutex or not, tells a well-formed ring from the bounded queue
  -- of the commands that it holds.
  pub run_refines :
      (calls : List (Call F)) (b : MotionBuffer F)
      → IsValid b
      → ring_run to_counts calls b ≡ queue_run calls (contents blank b)
  unfolding ring_run queue_run push pop peek clear
  run_refines [] b v = refl
  run_refines (put granted x y z a s ∷ calls) b v =
      let (v', e) = push_refines blank to_counts x y z a s b v in
      rw (run_refines calls (push to_counts granted x y z a s b).0 v', ← e)
  run_refines (get granted ∷ calls) b v =
      let (v', e, p, r) = pop_refines blank b v in rw (run_refines calls (pop granted b).0 v', ← e)
  run_refines (look granted ∷ calls) b v =
      let (v', e, p, r) = pop_refines blank b v in rw (run_refines calls b v, p)
  run_refines (wipe granted ∷ calls) b v =
      let (v', e) = clear_refines blank b v in rw (run_refines calls (clear granted b) v', e)
  run_refines (put no_mutex x y z a s ∷ calls) b v = rw (run_refines calls b v)
  run_refines (put timed_out x y z a s ∷ calls) b v = rw (run_refines calls b v)
  run_refines (get no_mutex ∷ calls) b v = rw (run_refines calls b v)
  run_refines (get timed_out ∷ calls) b v = rw (run_refines calls b v)
  run_refines (look no_mutex ∷ calls) b v = rw (run_refines calls b v)
  run_refines (look timed_out ∷ calls) b v = rw (run_refines calls b v)
  run_refines (wipe no_mutex ∷ calls) b v = rw (run_refines calls b v)
  run_refines (wipe timed_out ∷ calls) b v = rw (run_refines calls b v)
