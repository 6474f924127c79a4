-- ===== src/SafetyMonitor/Latch.antt =====
-- The alarm of src/safety.cpp: how it is raised and reset. The texts of faults are left out.
use bisso_e350_controller.Base.{
  ℕ, ◌+◌, ◌%◌, Bool, true, false, not, ◌&&◌, ◌||◌, if◌then◌else◌, ltb, ◌==◌, u32, elapsed, List,
  ◌∷◌, replicate, set, ◌≡◌,
}
use bisso_e350_controller.Base.Int.{ℤ, pos, negsuc}
use bisso_e350_controller.Motion.Types.{
  MotionState, executing, wait_consenso, homing_approach_fast, homing_backoff, homing_approach_fine,
  ◌is◌, motion_axes,
}
use bisso_e350_controller.MotionBuffer.Ring.{Lock, no_mutex, timed_out, granted}
use bisso_e350_controller.Safety.{Severity, fault_none, fault_warning, fault_error, fault_critical}

-- `safety_fault_t`
pub data SafetyFault : Type 0 where
  safety_ok safety_stalled safety_soft_limit safety_plc_fault : SafetyFault
  safety_thermal safety_alarm safety_encoder_error safety_rs485_timeout : SafetyFault

-- The number of a fault in the source's enumeration.
abbrev pub fault_number : SafetyFault → ℕ
fault_number safety_ok = 0
fault_number safety_stalled = 1
fault_number safety_soft_limit = 2
fault_number safety_plc_fault = 3
fault_number safety_thermal = 4
fault_number safety_alarm = 5
fault_number safety_encoder_error = 6
fault_number safety_rs485_timeout = 7

infix 50 ◌fault_is◌
abbrev pub ◌fault_is◌ : SafetyFault → SafetyFault → Bool
f fault_is f' = fault_number f == fault_number f'

-- The codes of `fault_code_t` that this file reports.
pub data FaultCode : Type 0 where
  encoder_timeout plc_comm_loss motion_stall soft_limit_exceeded : FaultCode
  temperature_high rs485_timeout : FaultCode

-- `faultLogEntry`, without its text, and the event of the soft limit.
pub data Report : Type 0 where
  fault_log : Severity → FaultCode → ℤ → Report
  soft_limit_hit : Report

abbrev pub safety_fault_history_size : ℕ
safety_fault_history_size = 16

abbrev pub safety_min_alarm_duration_ms : ℕ
safety_min_alarm_duration_ms = 1000

-- `safety_state`, without the text and the state of the other machine, and the alarm's flag, time
-- and pin. `reports` holds what went to the fault log and the event group, the latest first.
pub record Monitor : Type 0 where
  pub alarm_active : Bool
  pub alarm_trigger_time : ℕ
  pub current_fault : SafetyFault
  pub fault_timestamp : ℕ
  pub fault_duration_ms : ℕ
  pub fault_count : ℕ
  pub fault_history : List SafetyFault
  pub history_index : ℕ
  pub alarm_pin : Bool
  pub reports : List Report

-- What the monitor uses of the motion engine, a machine `M`: the emergency stop at a time, the state
-- of an axis, and whether it moves. A machine that was stopped does not move.
pub record MotionSide (M : Type 0) : Type 0 where
  pub motion_emergency_stop : ℕ → M → M
  pub motion_get_state : ℕ → M → MotionState
  pub motion_is_moving : M → Bool
  pub stop_halts : (now : ℕ) (m : M) → motion_is_moving (motion_emergency_stop now m) ≡ false

pub record Watched (M : Type 0) : Type 0 where
  pub monitor : Monitor
  pub motion : M

-- What a call meets: the mutex, the clock under it, and the clock of the emergency stop.
pub record Turn : Type 0 where
  pub lock : Lock
  pub now : ℕ
  pub stop_now : ℕ

-- `safetyInit`; `alarm_active` and `alarm_trigger_time` keep their values.
unfoldable pub init : Monitor → Monitor
init s = record s {
  current_fault = safety_ok;
  fault_timestamp = 0;
  fault_duration_ms = 0;
  fault_count = 0;
  fault_history = replicate 16 safety_ok;
  history_index = 0;
  alarm_pin = false;
}

-- The answers of the encoders to a reset.
pub record Encoders : Type 0 where
  pub status_bad : Bool
  pub is_stale : ℕ → Bool

unfoldable pub safety_check_motion_allowed : ℕ → Monitor → Bool
safety_check_motion_allowed axis s =
    ltb axis motion_axes && (not s.alarm_active && s.current_fault fault_is safety_ok)

unfoldable pub safety_get_alarm_duration : ℕ → Monitor → ℕ
safety_get_alarm_duration now s =
    if s.alarm_active then elapsed now s.alarm_trigger_time else s.fault_duration_ms

abbrev pub report : Report → Monitor → Monitor
report r s = record s { reports = r ∷ s.reports }

-- The part of the trigger under the mutex, with no alarm active.
unfoldable pub latch : ℕ → SafetyFault → Monitor → Monitor
latch now fault s = record s {
  current_fault = fault;
  alarm_active = true;
  alarm_trigger_time = now;
  fault_timestamp = now;
  fault_count = u32 (s.fault_count + 1);
  fault_history = set s.fault_history s.history_index fault;
  history_index = (s.history_index + 1) % safety_fault_history_size;
}

-- The states in which `safetyResetAlarm` takes an axis to move.
unfoldable pub still_moving : MotionState → Bool
still_moving s =
    s is executing
    || s is wait_consenso
    || s is homing_approach_fast
    || s is homing_backoff
    || s is homing_approach_fine

abbrev pub any_axis : (ℕ → Bool) → Bool
any_axis f = f 0 || f 1 || f 2 || f 3

module _ {M : Type 0} (side : MotionSide M) where
  -- The alarm pin and the emergency stop.
  abbrev pub halt : ℕ → Watched M → Watched M
  halt now r = record r {
    monitor = record r.monitor { alarm_pin = true };
    motion = side.motion_emergency_stop now r.motion;
  }

  -- With the answer of the attempt to take the mutex.
  abbrev pub trigger_with : Lock → Turn → SafetyFault → Watched M → Watched M
  trigger_with no_mutex t fault r = halt t.stop_now r
  trigger_with timed_out t fault r = halt t.stop_now r
  trigger_with granted t fault r =
      if r.monitor.alarm_active
      then r
      else halt t.stop_now (record r { monitor = latch t.now fault r.monitor })

  unfoldable pub safety_trigger_alarm : Turn → SafetyFault → Watched M → Watched M
  unfolding latch
  safety_trigger_alarm t fault r = trigger_with t.lock t fault r

  abbrev pub is_granted : Lock → Bool
  is_granted granted = true
  is_granted no_mutex = false
  is_granted timed_out = false

  unfoldable pub safety_reset_alarm : Lock → ℕ → Encoders → Watched M → Watched M
  unfolding still_moving
  safety_reset_alarm lock now e r =
      let duration = elapsed now r.monitor.alarm_trigger_time in
      let encoder_ok = not (e.status_bad || any_axis e.is_stale) in
      if not (is_granted lock)
      then r
      else if not r.monitor.alarm_active
      then r
      else if any_axis (λ a. still_moving (side.motion_get_state a r.motion))
      then r
      else if not encoder_ok && r.monitor.current_fault fault_is safety_encoder_error
      then r
      else if ltb duration safety_min_alarm_duration_ms
      then r
      else record r {
        monitor = record r.monitor {
          alarm_active = false;
          current_fault = safety_ok;
          fault_duration_ms = duration;
          alarm_pin = false;
        };
      }

  abbrev pub is_error : Severity → Bool
  is_error fault_error = true
  is_error fault_critical = true
  is_error fault_warning = false
  is_error fault_none = false

  unfoldable pub safety_report_fault :
      Turn → Severity → FaultCode → ℤ → SafetyFault → Watched M → Watched M
  unfolding safety_trigger_alarm
  safety_report_fault t severity code axis fault r =
      let logged = record r { monitor = report (fault_log severity code axis) r.monitor } in
      if is_error severity then safety_trigger_alarm t fault logged else logged

  unfoldable pub safety_report_stall : Turn → ℕ → Watched M → Watched M
  unfolding safety_report_fault
  safety_report_stall t axis r =
      if ltb axis motion_axes
      then safety_report_fault t fault_error motion_stall (pos axis) safety_stalled r
      else r

  unfoldable pub safety_report_soft_limit : Turn → ℕ → Watched M → Watched M
  unfolding safety_report_fault
  safety_report_soft_limit t axis r =
      if ltb axis motion_axes
      then safety_report_fault t fault_error soft_limit_exceeded (pos axis) safety_soft_limit
          (record r { monitor = report soft_limit_hit r.monitor })
      else r

  unfoldable pub safety_report_encoder_error : Turn → ℕ → Watched M → Watched M
  unfolding safety_report_fault
  safety_report_encoder_error t axis r =
      if ltb axis motion_axes
      then safety_report_fault t fault_error encoder_timeout (pos axis) safety_encoder_error r
      else r

  unfoldable pub safety_report_plc_fault : Turn → Watched M → Watched M
  unfolding safety_report_fault
  safety_report_plc_fault t r =
      safety_report_fault t fault_error plc_comm_loss (negsuc 0) safety_plc_fault r
