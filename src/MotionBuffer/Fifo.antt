-- ===== src/MotionBuffer/Fifo.antt =====
-- What the motion buffer of src/motion_buffer.cpp promises: a first-in first-out queue of at most
-- 1024 commands, and the calls that its users make.
use bisso_e350_controller.Base.{
  Bool, true, false, leb, if◌then◌else◌, Option, none, some, List, [], ◌∷◌, ◌++◌, length,
}
use bisso_e350_controller.MotionBuffer.Ring.{motion_buffer_size}

module _ {A : Type 0} where
  unfoldable pub enqueue : A → List A → List A × Bool
  enqueue x q = if leb motion_buffer_size (length q) then (q, false) else (q ++ (x ∷ []), true)

  unfoldable pub dequeue : List A → List A × Option A
  dequeue [] = ([], none)
  dequeue (x ∷ q) = (q, some x)

  unfoldable pub front : List A → Option A
  front [] = none
  front (x ∷ q) = some x
