-- ===== src/Motion/Safety.antt =====
-- When the state machine commands an axis to move, and when it stops one.
use bisso_e350_controller.Base.{◌≢◌, ℕ, ◌≡◌, refl, ◌⊎◌, inl, inr, true, false, arith}
use bisso_e350_controller.Motion.Types.{
  MotionState, wait_consenso, executing, stopping, error, homing_approach_fast, homing_backoff,
  Context, count_drives, is_driving,
}
use bisso_e350_controller.Motion.Fsm.{transition_to}
use bisso_e350_controller.Motion.Handlers.{Inputs, update, run_handler, target_reached}

abbrev pub Commands : MotionState → ℕ → Type 0
Commands s id =
    ((s ≡ stopping) × ((id ≡ 0) ⊎ (id ≡ 2))) ⊎ (s ≡ homing_approach_fast) ⊎ (s ≡ homing_backoff)

run_handler-Commands :
    (s : MotionState) (i : Inputs) (c : Context)
    → c.axis.state ≡ s
    → (count_drives (run_handler s i c).shared.outputs ≡ count_drives c.shared.outputs)
      ⊎ Commands s c.axis.id
unfolding run_handler
run_handler-Commands homing_approach_fast i c h = inr (inr (inl refl))
run_handler-Commands homing_backoff i c h = inr (inr (inr refl))
run_handler-Commands wait_consenso i c h = inl (ground arith)
run_handler-Commands executing i c h = inl (ground arith)
run_handler-Commands stopping i c h = grind arith
run_handler-Commands _ i c h = inl (ground arith)

-- An update commands a movement only in three places: the position hunt of the X and the Z axis
-- behind a stop, and the two reversals of a homing run. In every other state, and for the Y and
-- the A axis behind a stop, the number of movement commands stays what it was.
pub update-Commands :
    (i : Inputs) (c : Context)
    → (count_drives (update i c).shared.outputs ≡ count_drives c.shared.outputs)
      ⊎ Commands c.axis.state c.axis.id
unfolding update
update-Commands i c = ground (arith, run_handler-Commands c.axis.state i c refl)

-- A transition to `error` is accepted from every state; it stops all axes and leaves nothing
-- driving.
pub transition-error :
    (now : ℕ) (c : Context)
    → let (c', accepted) = transition_to now error c in
      (accepted ≡ true) × (c'.axis.state ≡ error) × (is_driving c'.shared.outputs ≡ false)
unfolding transition_to
transition-error now c = ground arith

-- An update of an enabled axis that is executing and has reached its target takes it to `stopping`
-- and leaves nothing driving.
pub executing_stops :
    (i : Inputs) (c : Context)
    → c.axis.enabled ≡ true
    → c.axis.state ≡ executing
    → target_reached i c ≡ true
    → ((update i c).axis.state ≡ stopping) × (is_driving (update i c).shared.outputs ≡ false)
unfolding update run_handler
executing_stops i c en st h = ground arith

run_handler_error_stops :
    (s : MotionState) (i : Inputs) (c : Context)
    → c.axis.state ≡ s
    → s ≢ error
    → (run_handler s i c).axis.state ≡ error
    → is_driving (run_handler s i c).shared.outputs ≡ false
unfolding run_handler
run_handler_error_stops error i c h n e = absurd (n refl)
run_handler_error_stops stopping i c h n e = ground arith
run_handler_error_stops _ i c h n e = ground arith

-- An update that takes an axis into `error` leaves nothing driving.
pub update_error_stops :
    (i : Inputs) (c : Context)
    → c.axis.state ≢ error
    → (update i c).axis.state ≡ error
    → is_driving (update i c).shared.outputs ≡ false
unfolding update
update_error_stops i c n e = ground (arith, run_handler_error_stops c.axis.state i c refl n)
