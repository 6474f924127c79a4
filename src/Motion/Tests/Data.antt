-- ===== src/Motion/Tests/Data.antt =====
-- The test data: inputs, axes and machines.
use bisso_e350_controller.Base.{ℕ, true, false, [], ◌∷◌}
use bisso_e350_controller.Base.Int.{pos}
use bisso_e350_controller.Motion.Types.{MotionState, idle, Axis, Shared, Context, no_axis}
use bisso_e350_controller.Motion.Handlers.{Inputs}
use bisso_e350_controller.Motion.Control.{Motion, blank_axis}

-- Inputs at a time: position 500, target 1000, hardware present, no consensus, switch open.
abbrev pub calm : ℕ → Inputs
calm now = record {
  current_pos = pos 500;
  global_target = pos 1000;
  consensus = false;
  now = now;
  now_later = now;
  now_entry = now;
  hardware_present = true;
  margin_counts = pos 10;
  stop_timeout = 5000;
  switch_hit = false;
  slow_profile = 0;
  i73_pin = false;
  gpio_pin = false;
  estop_active = false;
  pause_pressed = false;
  resume_pressed = false;
  connection_ok = true;
}

abbrev pub touching : ℕ → Inputs
touching now = record (calm now) { switch_hit = true }

-- Inputs at the target.
abbrev pub arrived : ℕ → Inputs
arrived now = record (calm now) { current_pos = pos 1000 }

abbrev pub quiet : Shared
quiet = record { active_axis = no_axis; active_start_position = pos 0; outputs = [] }

-- An axis in a state that it entered at a time.
abbrev pub axis_in : ℕ → MotionState → ℕ → Axis
axis_in id s t = record blank_axis { id = id; state = s; state_entry_ms = t }

-- A context with axis 1 active in a state.
abbrev pub context_in : MotionState → ℕ → Context
context_in s t = record { axis = axis_in 1 s t; shared = record quiet { active_axis = 1 } }

abbrev pub resting : Motion
resting = record {
  axes = axis_in 0 idle 0 ∷ axis_in 1 idle 0 ∷ axis_in 2 idle 0 ∷ axis_in 3 idle 0 ∷ [];
  shared = quiet;
  global_enabled = true;
}

abbrev pub disabled : Motion
disabled = record resting { global_enabled = false }

-- A machine with axis 1 active in a state.
abbrev pub busy : MotionState → Motion
busy s = record resting {
  axes = axis_in 0 idle 0 ∷ axis_in 1 s 0 ∷ axis_in 2 idle 0 ∷ axis_in 3 idle 0 ∷ [];
  shared = record quiet { active_axis = 1 };
}
