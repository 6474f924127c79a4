-- ===== src/Motion/OneActive/Runs.antt =====
-- Sequences of commands and updates of src/motion_control.cpp, in any order.
use bisso_e350_controller.Base.{ℕ, ◌≤◌, ◌≡◌, Bool, false, List, [], ◌∷◌, length}
use bisso_e350_controller.Base.Int.{ℤ}
use bisso_e350_controller.Motion.Types.{motion_axes, no_axis}
use bisso_e350_controller.Motion.Handlers.{Inputs}
use bisso_e350_controller.Motion.Control.{
  Motion, motion_home, motion_move_absolute, motion_stop, motion_pause, motion_resume, motion_dwell,
  motion_wait_pin, motion_emergency_stop, motion_clear_emergency_stop, update_active,
}
use bisso_e350_controller.Motion.OneActive.{OneActive}
use bisso_e350_controller.Motion.OneActive.Commands.{
  home-OneActive, update-OneActive, stop-OneActive, pause-OneActive, resume-OneActive,
  dwell-OneActive, pin-OneActive,
}
use bisso_e350_controller.Motion.OneActive.Moves.{move-OneActive}
use bisso_e350_controller.Motion.OneActive.Stops.{stop_all-OneActive, clear-OneActive}

-- What the other tasks ask of the motion engine, with the arguments of each call.
pub data Call : Type 0 where
  home : Bool → ℕ → ℕ → ℕ → Call
  move : Bool → ℕ → ℤ → ℕ → List (ℤ × ℤ) → Call
  stop : Bool → ℕ → Call
  pause : Bool → ℕ → Call
  resume : Bool → ℕ → ℕ → Call
  dwell_for : Bool → ℕ → ℕ → ℕ → Call
  wait_for_pin : Bool → ℕ → ℕ → ℕ → ℕ → ℕ → Call
  emergency_stop : ℕ → Call
  clear : Bool → ℕ → Call
  tick : Inputs → Call

unfoldable pub perform : Call → Motion → Motion
perform (home g now profile axis) m = (motion_home g now profile axis m).0
perform (move g now predicted profile requests) m =
    (motion_move_absolute g now predicted profile requests m).0
perform (stop g now) m = (motion_stop g now m).0
perform (pause g now) m = (motion_pause g now m).0
perform (resume g now profile) m = (motion_resume g now profile m).0
perform (dwell_for g now later ms) m = (motion_dwell g now later ms m).0
perform (wait_for_pin g now id kind level sec) m = (motion_wait_pin g now id kind level sec m).0
perform (emergency_stop now) m = motion_emergency_stop now m
perform (clear alarmed now) m = (motion_clear_emergency_stop alarmed now m).0
perform (tick i) m = update_active i m

-- A move names at most 4 positions; the emergency stop is not cleared behind a homing run that
-- began under it.
abbrev pub Allowed : Call → Motion → Type 0
Allowed (move g now predicted profile requests) m = length requests ≤ motion_axes
Allowed (clear alarmed now) m = m.global_enabled ≡ false → m.shared.active_axis ≡ no_axis
Allowed _ m = Unit {0}

unfoldable pub perform_all : List Call → Motion → Motion
perform_all [] m = m
perform_all (c ∷ calls) m = perform_all calls (perform c m)

abbrev pub AllAllowed : List Call → Motion → Type 0
AllAllowed [] m = Unit {0}
AllAllowed (c ∷ calls) m = Allowed c m × AllAllowed calls (perform c m)

pub perform-OneActive :
    (c : Call) (m : Motion) → Allowed c m → OneActive m → OneActive (perform c m)
unfolding perform
perform-OneActive (home g now profile axis) m a h = home-OneActive g now profile axis m h
perform-OneActive (move g now predicted profile requests) m a h =
    move-OneActive g now predicted profile requests m a h
perform-OneActive (stop g now) m a h = stop-OneActive g now m h
perform-OneActive (pause g now) m a h = pause-OneActive g now m h
perform-OneActive (resume g now profile) m a h = resume-OneActive g now profile m h
perform-OneActive (dwell_for g now later ms) m a h = dwell-OneActive g now later ms m h
perform-OneActive (wait_for_pin g now id kind level sec) m a h =
    pin-OneActive g now id kind level sec m h
perform-OneActive (emergency_stop now) m a h = stop_all-OneActive now m h
perform-OneActive (clear alarmed now) m a h = clear-OneActive alarmed now m a h
perform-OneActive (tick i) m a h = update-OneActive i m h

-- After any sequence of commands and updates at most one axis is in motion, when it was so before:
-- there are 4 axes, the active axis is one of them or none, and each other axis is idle or in
-- `error`. The calls keep two conditions: a move names at most 4 positions, and with motion
-- disabled the emergency stop is cleared only while no axis is active.
pub run-OneActive :
    (calls : List Call) (m : Motion)
    → AllAllowed calls m
    → OneActive m
    → OneActive (perform_all calls m)
unfolding perform_all
run-OneActive [] m a h = h
run-OneActive (c ∷ calls) m a h =
    run-OneActive calls (perform c m) a.1 (perform-OneActive c m a.0 h)
