-- ===== src/Motion/Tests/Machine.antt =====
-- The theorems on the commands of motion control at concrete machines.
use bisso_e350_controller.Base.{◌≡◌, true, false, List, [], ◌∷◌, All}
use bisso_e350_controller.Base.Int.{ℤ, pos}
use bisso_e350_controller.Motion.Types.{executing, error, no_axis, is_driving}
use bisso_e350_controller.Motion.Control.{motion_emergency_stop}
use bisso_e350_controller.Motion.EmergencyStop.{emergency_stop_halts}
use bisso_e350_controller.Motion.OneActive.Runs.{
  Call, home, move, stop, tick, emergency_stop, clear,
}
use bisso_e350_controller.Motion.Tests.Data.{touching, busy}

emergency_stop_halts_example :
    let m' = motion_emergency_stop 9 (busy executing) in
    All (λ a. a.state ≡ error) m'.axes
    × (m'.shared.active_axis ≡ no_axis)
    × (m'.global_enabled ≡ false)
    × (is_driving m'.shared.outputs ≡ false)
emergency_stop_halts_example = emergency_stop_halts 9 (busy executing)

-- Only the axis 2 is to move.
abbrev one_target : List (ℤ × ℤ)
one_target = (pos 0, pos 0) ∷ (pos 5, pos 5) ∷ (pos 900, pos 100) ∷ (pos 0, pos 0) ∷ []

abbrev calls : List Call
calls =
    home true 9 1 1
    ∷ tick (touching 20)
    ∷ move true 30 (pos 0) 1 one_target
    ∷ stop true 40
    ∷ emergency_stop 50
    ∷ clear false 60
    ∷ []
