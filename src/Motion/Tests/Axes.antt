-- ===== src/Motion/Tests/Axes.antt =====
-- The theorems on the state machine of an axis at concrete contexts, and runs of the handlers.
use bisso_e350_controller.Base.{◌≤◌, ◌≡◌, refl, ◌⊎◌, List, [], ◌∷◌, length, arith}
use bisso_e350_controller.Motion.Types.{
  idle, homing_approach_fast, homing_settle, count_drives, count_zeros,
}
use bisso_e350_controller.Motion.Handlers.{Inputs, update, run_handler}
use bisso_e350_controller.Motion.Graph.{run}
use bisso_e350_controller.Motion.Safety.{Commands, update-Commands}
use bisso_e350_controller.Motion.Homing.{updates_to_zero, Zeroed, update_zeros, homing_order}
use bisso_e350_controller.Motion.Tests.Data.{calm, touching, context_in}

abbrev homing_inputs : List Inputs
homing_inputs = touching 10 ∷ calm 2000 ∷ touching 3000 ∷ calm 4001 ∷ []

update-Commands_example :
    (count_drives (update (touching 7) (context_in homing_approach_fast 0)).shared.outputs ≡ 0)
    ⊎ Commands homing_approach_fast 1
update-Commands_example = update-Commands (touching 7) (context_in homing_approach_fast 0)

update_zeros_example :
    (count_zeros (update (calm 1001) (context_in homing_settle 0)).shared.outputs ≡ 0)
    ⊎ Zeroed
        (calm 1001)
        (context_in homing_settle 0)
        (update (calm 1001) (context_in homing_settle 0))
update_zeros_example = update_zeros (calm 1001) (context_in homing_settle 0)

-- A whole homing run, which sets the encoder to zero.
homing_run :
    let c = run homing_inputs (context_in homing_approach_fast 0) in
    (count_zeros c.shared.outputs ≡ 1) × (c.axis.state ≡ idle)
unfolding run update run_handler
homing_run = (refl, refl)

homing_order_example : updates_to_zero homing_approach_fast ≤ length homing_inputs
unfolding run update run_handler
homing_order_example = homing_order homing_inputs (context_in homing_approach_fast 0) (omega arith)
