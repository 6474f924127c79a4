-- ===== src/Safety/Tests.antt =====
-- The safety theorems at concrete states, and a run of requests.
use bisso_e350_controller.Base.{◌≡◌, refl, [], ◌∷◌}
use bisso_e350_controller.Safety.{fsm_ok, fsm_warning, fsm_alarm, fsm_critical, safety_set_state}
use bisso_e350_controller.Safety.Levels.{request_all}

-- A jump is refused; step by step the level rises.
climb :
    request_all (fsm_critical ∷ fsm_warning ∷ fsm_alarm ∷ fsm_critical ∷ []) fsm_ok ≡ fsm_critical
unfolding request_all safety_set_state
climb = refl
