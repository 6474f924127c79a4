-- ===== src/SafetyMonitor/Tests.antt =====
-- The theorems on the safety monitor at a machine whose axis 1 is executing.
use bisso_e350_controller.Base.{
  ℕ, inr, ◌≡◌, ◌↔◌, refl, arith, true, false, ◌==◌, none, List, [], ◌∷◌, All, replicate,
}
use bisso_e350_controller.Base.Int.{pos}
use bisso_e350_controller.MotionBuffer.Ring.{granted, timed_out}
use bisso_e350_controller.Motion.Types.{executing, error, no_axis, is_driving}
use bisso_e350_controller.Motion.Control.{Motion, motion_clear_emergency_stop}
use bisso_e350_controller.Motion.OneActive.Runs.{Call, home, clear}
use bisso_e350_controller.Motion.Tests.Data.{resting, busy}
use bisso_e350_controller.SafetyMonitor.Latch.{
  safety_ok, safety_stalled, safety_thermal, Monitor, Watched, Turn, Encoders, safety_trigger_alarm,
  safety_reset_alarm,
}
use bisso_e350_controller.SafetyMonitor.Supervision.{Seen, Checks, safety_update}
use bisso_e350_controller.SafetyMonitor.Events.{
  Event, trigger, stall, update, elsewhere, reset, happen_all,
}
use bisso_e350_controller.SafetyMonitor.Latched.{
  IsLatched, SameAlarm, happen_all-IsLatched, happen_all-SameAlarm,
}
use bisso_e350_controller.SafetyMonitor.Reset.{CanReset, reset_iff}
use bisso_e350_controller.SafetyMonitor.Stops.{IsHalted}
use bisso_e350_controller.SafetyMonitor.Stalls.{SeesStall, update_stops}
use bisso_e350_controller.SafetyMonitor.Machine.{
  motion_side, motion_get_state, motion_is_moving, command, IsHeld, alarm_disables_motion,
  forced_stop_unlatched,
}

abbrev calm : Monitor
calm = record {
  alarm_active = false;
  alarm_trigger_time = 0;
  current_fault = safety_ok;
  fault_timestamp = 0;
  fault_duration_ms = 0;
  fault_count = 0;
  fault_history = replicate 16 safety_ok;
  history_index = 0;
  alarm_pin = false;
  reports = [];
}

abbrev alarmed : Monitor
alarmed = record calm {
  alarm_active = true;
  current_fault = safety_stalled;
  alarm_trigger_time = 100;
  alarm_pin = true;
}

abbrev at_work : Watched Motion
at_work = record { monitor = calm; motion = busy executing }

abbrev held : Watched Motion
held = record { monitor = alarmed; motion = resting }

abbrev turn : Turn
turn = record { lock = granted; now = 700; stop_now = 700 }

-- The mutex is not free in time.
abbrev blocked : Turn
blocked = record { lock = timed_out; now = 700; stop_now = 700 }

-- Axis 1 has had an encoder error for 2500 ms; the limit is 2000 ms.
abbrev seen : Seen ℕ
seen = record {
  now = 700;
  stall_timeout_ms = 2000;
  has_error = λ axis. axis == 1;
  error_duration = λ axis. 2500;
  calibration_is_valid = false;
  current_read_at = 0;
  current_in_range = false;
  current_is_stall = false;
  frequency_read_at = 0;
  frequency_in_range = false;
  frequency = 0;
  lost_from = λ f. false;
  thermal_read_at = 0;
  thermal_state = pos 0;
  is_critical = false;
  is_high = false;
  metrics = λ axis. none;
  watchdog = false;
  turn = λ place. turn;
}

abbrev checks : Checks ℕ
checks = record {
  last_stall_check = 100;
  last_frequency = 0;
  last_thermal_check = 0;
  last_thermal_warn = 0;
  last_axis_quality_check = 0;
}

abbrev encoders : Encoders
encoders = record { status_bad = false; is_stale = λ axis. false }

calm-IsLatched : IsLatched calm
calm-IsLatched = record {
  fault_iff = refl;
  raised = λ e. absurd (ground arith);
  history = refl;
  in_range = omega arith;
}

abbrev events : List (Event ℕ Call)
events =
    trigger turn safety_thermal
    ∷ elsewhere (clear false 800)
    ∷ elsewhere (home true 800 2 1)
    ∷ stall turn 1
    ∷ update seen
    ∷ []

happen_all-IsLatched_example :
    IsLatched
      (happen_all motion_side command
        (trigger turn safety_thermal ∷ update seen ∷ reset granted 2000 encoders ∷ [])
        (checks, at_work)).1.monitor
happen_all-IsLatched_example =
    happen_all-IsLatched motion_side command
      (trigger turn safety_thermal ∷ update seen ∷ reset granted 2000 encoders ∷ []) checks at_work
      (refl, (tt, (tt, tt))) calm-IsLatched

happen_all-SameAlarm_example :
    SameAlarm alarmed (happen_all motion_side command events (checks, held)).1.monitor
happen_all-SameAlarm_example =
    happen_all-SameAlarm motion_side command alarmed events checks held
      (refl, (tt, (tt, (tt, (tt, tt))))) (tt, (tt, (tt, (tt, (tt, tt)))))
      (record { active = refl; cause = refl; since = refl; faults = refl; same_history = refl })

reset_iff_example :
    ((safety_reset_alarm motion_side granted 1200 encoders held).monitor.alarm_active ≡ false)
    ↔ CanReset motion_side granted 1200 encoders held
reset_iff_example = reset_iff motion_side granted 1200 encoders held refl

sees : SeesStall motion_side seen 1 (busy executing)
unfolding motion_get_state
sees = record { inside = omega arith; runs = refl; lags = refl; overdue = omega arith }

at_work_moves : motion_is_moving (busy executing) ≡ true
unfolding motion_is_moving
at_work_moves = refl

update_stops_example : IsHalted motion_side (safety_update motion_side seen checks at_work).1
update_stops_example =
    update_stops motion_side seen 1 checks at_work at_work_moves refl (inr (sees, omega arith))

alarm_disables_motion_example :
    IsHeld
      (happen_all motion_side command events
        (checks, safety_trigger_alarm motion_side turn safety_thermal at_work)).1
alarm_disables_motion_example =
    alarm_disables_motion 700 700 safety_thermal events checks at_work refl
      (refl, (tt, (tt, (tt, (tt, tt))))) (tt, (tt, (tt, (tt, (tt, tt)))))

forced_stop_unlatched_example :
    let r' = safety_trigger_alarm motion_side blocked safety_thermal at_work in
    All (λ a. a.state ≡ error) r'.motion.axes
    × (r'.motion.shared.active_axis ≡ no_axis)
    × (r'.motion.global_enabled ≡ false)
    × (is_driving r'.motion.shared.outputs ≡ false)
    × (r'.monitor.alarm_pin ≡ true)
    × (r'.monitor.alarm_active ≡ false)
    × (r'.monitor.current_fault ≡ safety_ok)
    × ((motion_clear_emergency_stop r'.monitor.alarm_active 2000 r'.motion).0.global_enabled ≡ true)
    × ((safety_reset_alarm motion_side granted 2000 encoders r').monitor.alarm_pin ≡ true)
forced_stop_unlatched_example =
    forced_stop_unlatched blocked 2000 safety_thermal granted encoders at_work refl refl
