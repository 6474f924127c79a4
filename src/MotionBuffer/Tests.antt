-- ===== src/MotionBuffer/Tests.antt =====
-- The theorems on the motion buffer at an empty ring and at one about to wrap, with positions as
-- numbers that are already in counts.
use bisso_e350_controller.Base.{ℕ, ◌≡◌, refl, List, [], ◌∷◌, arith, replicate, length-replicate}
use bisso_e350_controller.Base.Int.{ℤ, pos}
use bisso_e350_controller.MotionBuffer.Ring.{MotionCmd, MotionBuffer, granted, timed_out}
use bisso_e350_controller.MotionBuffer.Refinement.{IsValid, contents}
use bisso_e350_controller.MotionBuffer.Calls.{
  Call, put, get, look, wipe, ring_run, queue_run, run_refines,
}

abbrev as_counts : ℕ → ℕ → ℤ
as_counts axis p = pos p

abbrev at_x : ℕ → MotionCmd ℕ
at_x x = record {
  x_counts = pos x;
  y_counts = pos 0;
  z_counts = pos 0;
  a_counts = pos 0;
  speed_mm_s = 7;
}

-- One command waits in the last cell.
abbrev wrapping : MotionBuffer ℕ
wrapping = record { buffer = replicate 1024 (at_x 3); head = 0; tail = 1023; count = 1 }

wrapping-IsValid : IsValid wrapping
wrapping-IsValid = record {
  size = length-replicate 1024 (at_x 3);
  count_in = omega arith;
  tail_in = omega arith;
  head_at = refl;
}

abbrev calls : List (Call ℕ)
calls =
    put granted 5 0 0 0 7
    ∷ look granted
    ∷ get granted
    ∷ get timed_out
    ∷ get granted
    ∷ get granted
    ∷ wipe granted
    ∷ []

run_refines_example :
    ring_run as_counts calls wrapping
    ≡ queue_run (at_x 0) as_counts calls (contents (at_x 0) wrapping)
run_refines_example = run_refines (at_x 0) as_counts calls wrapping wrapping-IsValid
