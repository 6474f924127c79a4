-- ===== src/Plc/Tests.antt =====
-- The theorems on the relays at boards that are still and at one that drives.
use bisso_e350_controller.Base.{refl, true, false, List, [], ◌∷◌}
use bisso_e350_controller.Motion.Types.{executing}
use bisso_e350_controller.Motion.Control.{motion_emergency_stop}
use bisso_e350_controller.Motion.Tests.Data.{busy}
use bisso_e350_controller.Plc.Outputs.{all_off, written, failed, bus_busy, Plc}
use bisso_e350_controller.Plc.Interlock.{
  IsLocked, Call, axis_select, direction, set_speed, begin_batch, end_batch, clear_all, perform_all,
  run-IsLocked,
}
use bisso_e350_controller.Plc.Playback.{IsStill, IsReady, play_all, emergency_stop-IsStill}

abbrev still : Plc
still = record {
  shadow_register = all_off;
  aux_shadow = all_off;
  shadow_dirty = false;
  mutex_timeout_count = 0;
  in_transaction = false;
  hardware_present = true;
  board = all_off;
  aux_board = all_off;
}

-- The second axis is driven.
abbrev driving : Plc
driving =
    let r = record all_off { axis_y_select = false; dir_positive = false; speed_fast = false } in
    record still { shadow_register = r; board = r }

still-IsReady : IsReady still
still-IsReady = record {
  present = refl;
  batch = refl;
  in_step = λ e. refl;
  still = λ e. (refl, refl, refl, refl, refl);
}

abbrev calls : List Call
calls =
    begin_batch
    ∷ set_speed true written 2
    ∷ axis_select true failed 1
    ∷ axis_select false written 0
    ∷ direction true bus_busy true
    ∷ clear_all true written written
    ∷ end_batch true written failed
    ∷ direction true written false
    ∷ []

run-IsLocked_example : IsLocked (perform_all calls driving)
run-IsLocked_example =
    run-IsLocked calls driving
      (record { in_shadow = (refl, refl, refl); on_board = (refl, refl, refl) })

emergency_stop-IsStill_example :
    IsStill (play_all (motion_emergency_stop 9 (busy executing)).shared.outputs still).board
emergency_stop-IsStill_example = emergency_stop-IsStill 9 (busy executing) still still-IsReady refl
