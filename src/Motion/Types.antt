-- ===== src/Motion/Types.antt =====
-- The data of the motion engine: include/motion.h, include/motion_state_machine.h and the shared
-- state `m_state` of src/motion_control.cpp.
use bisso_e350_controller.Base.{ℕ, ◌+◌, Bool, true, false, List, [], ◌∷◌, ◌==◌}
use bisso_e350_controller.Base.Int.{ℤ, ◌-ℤ◌, pos_part, neg_part}

-- `motion_state_t`
pub data MotionState : Type 0 where
  idle wait_consenso executing stopping paused error : MotionState
  homing_approach_fast homing_backoff homing_approach_fine homing_settle : MotionState
  dwell wait_pin : MotionState

-- The number of a state, by which the code compares states.
abbrev pub state_number : MotionState → ℕ
state_number idle = 0
state_number wait_consenso = 1
state_number executing = 2
state_number stopping = 3
state_number paused = 4
state_number error = 5
state_number homing_approach_fast = 6
state_number homing_backoff = 7
state_number homing_approach_fine = 8
state_number homing_settle = 9
state_number dwell = 10
state_number wait_pin = 11

infix 50 ◌is◌
abbrev pub ◌is◌ : MotionState → MotionState → Bool
s is t = state_number s == state_number t

-- The fields of class `Axis` that the state machine, the commands and the planner read or write,
-- but for the commanded speed, a float (`commanded` in Motion/Planner). The velocity, prediction
-- and maintenance fields are floating-point statistics and are left out.
pub record Axis : Type 0 where
  pub id : ℕ
  pub position : ℤ
  pub target_position : ℤ
  pub state : MotionState
  pub enabled : Bool
  pub soft_limit_min : ℤ
  pub soft_limit_max : ℤ
  pub soft_limit_enabled : Bool
  pub position_at_stop : ℤ
  pub state_entry_ms : ℕ
  pub homing_trigger_pos : ℤ
  pub dwell_end_ms : ℕ
  pub wait_pin_type : ℕ
  pub wait_pin_id : ℕ
  pub wait_pin_state : ℕ
  pub wait_pin_timeout_ms : ℕ
  pub saved_speed_profile : ℕ
  pub error_logged : Bool

-- The bits of the motion event group.
pub data Event : Type 0 where
  idle_event started completed stopped error_event : Event
  homing_start homing_complete state_change : Event

-- The entries that the motion engine makes in the fault log.
pub data Fault : Type 0 where
  consensus_timeout pin_wait_timeout emergency_halt : Fault
  soft_limit_exceeded motion_timeout motion_timeout_critical : Fault

-- What the motion engine asks of the rest of the firmware. `drive axis plus` is
-- `motionSetPLCAxisDirection(axis, true, plus)` and `clear_all` the call that stops all axes.
pub data Output : Type 0 where
  drive : ℕ → Bool → Output
  clear_all : Output
  speed : ℕ → Output
  begin_transaction end_transaction : Output
  zero_encoder : ℕ → Output
  event_set event_clear : Event → Output
  fault : Fault → Output

-- `m_state` less its display fields and `global_enabled`, and the outputs made so far, the latest
-- first. The active axis is 255 when no axis is active.
pub record Shared : Type 0 where
  pub active_axis : ℕ
  pub active_start_position : ℤ
  pub outputs : List Output

abbrev pub no_axis : ℕ
no_axis = 255

-- What a handler of the state machine works on: its axis and the shared state.
pub record Context : Type 0 where
  pub axis : Axis
  pub shared : Shared

unfoldable pub emit : Output → Shared → Shared
emit o s = record s { outputs = o ∷ s.outputs }

-- `motionSetPLCAxisDirection`: it stops everything unless it is told to enable one of the 4 axes.
abbrev pub motion_axes : ℕ
motion_axes = 4

-- `abs(a - b)` of two positions. The difference of positions is taken to fit an `int32_t`.
abbrev pub distance : ℤ → ℤ → ℕ
distance a b = let d = a -ℤ b in pos_part d + neg_part d

-- How often the outputs command an axis to move.
abbrev pub count_drives : List Output → ℕ
count_drives [] = 0
count_drives (drive a d ∷ os) = count_drives os + 1
count_drives (_ ∷ os) = count_drives os

-- How often the outputs set an encoder to zero.
abbrev pub count_zeros : List Output → ℕ
count_zeros [] = 0
count_zeros (zero_encoder a ∷ os) = count_zeros os + 1
count_zeros (_ ∷ os) = count_zeros os

-- Whether the latest drive command still holds: no `clear_all` came after it.
abbrev pub is_driving : List Output → Bool
is_driving [] = false
is_driving (drive a d ∷ os) = true
is_driving (clear_all ∷ os) = false
is_driving (_ ∷ os) = is_driving os
