-- ===== src/SafetyMonitor/Supervision.antt =====
-- `safetyUpdate` of src/safety.cpp. What it reads of the encoders, the frequency drive and the bus is
-- the record `Seen`; the tests on floating-point values enter as their results.
use bisso_e350_controller.Base.{
  ℕ, Bool, false, not, ◌&&◌, ◌||◌, if◌then◌else◌, ltb, leb, elapsed, Option, none, some, List, [],
  ◌∷◌,
}
use bisso_e350_controller.Base.Int.{ℤ, pos, negsuc}
use bisso_e350_controller.Motion.Types.{executing, ◌is◌}
use bisso_e350_controller.Safety.{fault_error, fault_warning}
use bisso_e350_controller.SafetyMonitor.Latch.{
  SafetyFault, safety_stalled, safety_thermal, safety_rs485_timeout, FaultCode, motion_stall,
  temperature_high, rs485_timeout, fault_log, MotionSide, Watched, Turn, report,
  safety_trigger_alarm, safety_report_stall,
}

-- `axis_metrics_t`, as far as it is read.
pub record AxisMetrics : Type 0 where
  pub quality_score : ℕ
  pub is_moving : Bool
  pub stalled : Bool

-- `last_read_time_ms` is read once for each of the three values of the drive. `current_in_range` and
-- `frequency_in_range` stand for a number from 0 to 100; `is_critical` and `is_high` for the
-- comparisons of the thermal state with the thresholds. `turn` gives what the calls meet, by their
-- place in the function.
pub record Seen (F : Type 0) : Type 0 where
  pub now : ℕ
  pub stall_timeout_ms : ℕ
  pub has_error : ℕ → Bool
  pub error_duration : ℕ → ℕ
  pub calibration_is_valid : Bool
  pub current_read_at : ℕ
  pub current_in_range : Bool
  pub current_is_stall : Bool
  pub frequency_read_at : ℕ
  pub frequency_in_range : Bool
  pub frequency : F
  pub lost_from : F → Bool
  pub thermal_read_at : ℕ
  pub thermal_state : ℤ
  pub is_critical : Bool
  pub is_high : Bool
  pub metrics : ℕ → Option AxisMetrics
  pub watchdog : Bool
  pub turn : ℕ → Turn

-- The static variables of the function.
pub record Checks (F : Type 0) : Type 0 where
  pub last_stall_check : ℕ
  pub last_frequency : F
  pub last_thermal_check : ℕ
  pub last_thermal_warn : ℕ
  pub last_axis_quality_check : ℕ

abbrev pub in_percent : ℤ → Bool
in_percent (pos n) = ltb 0 n && leb n 200
in_percent (negsuc n) = false

abbrev pub is_degraded : AxisMetrics → Bool
is_degraded a = a.is_moving && (ltb a.quality_score 25 || a.stalled)

module _ {M : Type 0} (side : MotionSide M) where
  -- An entry in the fault log with an alarm, if none is active.
  abbrev pub alarm_once : Turn → FaultCode → ℤ → SafetyFault → Watched M → Watched M
  alarm_once t code axis fault r =
      if not r.monitor.alarm_active
      then safety_trigger_alarm side t fault
          (record r { monitor = report (fault_log fault_error code axis) r.monitor })
      else r

  -- An axis of the loop over the axes; `rest` comes of the others.
  abbrev pub check_axis : Turn → ℕ → Option AxisMetrics → Watched M → Watched M → Watched M
  check_axis t axis none r rest = rest
  check_axis t axis (some a) r rest =
      if is_degraded a && not r.monitor.alarm_active
      then alarm_once t motion_stall (pos axis) safety_stalled r
      else rest

module _ {F M : Type 0} (side : MotionSide M) where
  abbrev pub is_stalled : Seen F → ℕ → Watched M → Bool
  is_stalled o axis r =
      side.motion_get_state axis r.motion is executing
      && (o.has_error axis && ltb o.stall_timeout_ms (o.error_duration axis))

  unfoldable pub check_stalls : Seen F → List ℕ → Watched M → Watched M
  unfolding safety_report_stall
  check_stalls o [] r = r
  check_stalls o (axis ∷ axes) r =
      check_stalls o axes
        (if is_stalled o axis r then safety_report_stall side (o.turn axis) axis r else r)

  unfoldable pub check_current : Seen F → Watched M → Watched M
  unfolding safety_report_stall
  check_current o r =
      if o.calibration_is_valid
        && (ltb (elapsed o.now o.current_read_at) 1000
            && (o.current_in_range && (o.current_is_stall && not r.monitor.alarm_active)))
      then safety_report_stall side (o.turn 4) 0 r
      else r

  abbrev pub frequency_valid : Seen F → Bool
  frequency_valid o = ltb (elapsed o.now o.frequency_read_at) 1000 && o.frequency_in_range

  unfoldable pub check_frequency : Seen F → Checks F → Watched M → Watched M
  unfolding safety_trigger_alarm
  check_frequency o c r =
      if frequency_valid o && o.lost_from c.last_frequency
      then alarm_once side (o.turn 5) motion_stall (pos 0) safety_stalled r
      else r

  unfoldable pub check_thermal : Seen F → Checks F → Watched M → Checks F × Watched M
  unfolding safety_trigger_alarm
  check_thermal o c r =
      let warn_due = ltb 5000 (elapsed o.now c.last_thermal_warn) in
      let warned = record r {
        monitor = report (fault_log fault_warning temperature_high (negsuc 0)) r.monitor;
      } in
      if ltb (elapsed o.now o.thermal_read_at) 1000 && in_percent o.thermal_state
      then (if o.is_critical
          then (c, alarm_once side (o.turn 6) temperature_high (pos 0) safety_thermal r)
          else if o.is_high && warn_due
          then (record c { last_thermal_warn = o.now }, warned)
          else (c, r))
      else (c, r)

  -- The loop over the axes, which an alarm ends.
  unfoldable pub check_quality : Seen F → List ℕ → Watched M → Watched M
  unfolding safety_trigger_alarm
  check_quality o [] r = r
  check_quality o (axis ∷ axes) r =
      check_axis side (o.turn 7) axis (o.metrics axis) r (check_quality o axes r)

  abbrev pub motion_checks : Seen F → Watched M → Watched M
  motion_checks o r =
      if side.motion_is_moving r.motion
      then check_current o (check_stalls o (0 ∷ 1 ∷ 2 ∷ 3 ∷ []) r)
      else r

  abbrev pub frequency_checks : Seen F → Checks F → Watched M → Checks F × Watched M
  frequency_checks o c r =
      if side.motion_is_moving r.motion
      then (
        if frequency_valid o then record c { last_frequency = o.frequency } else c,
        check_frequency o c r,
      )
      else (c, r)

  abbrev pub thermal_checks : Seen F → Checks F → Watched M → Checks F × Watched M
  thermal_checks o c r =
      if ltb 1000 (elapsed o.now c.last_thermal_check)
      then check_thermal o (record c { last_thermal_check = o.now }) r
      else (c, r)

  abbrev pub quality_checks : Seen F → Checks F → Watched M → Checks F × Watched M
  quality_checks o c r =
      if ltb 500 (elapsed o.now c.last_axis_quality_check)
      then (record c { last_axis_quality_check = o.now }, check_quality o (0 ∷ 1 ∷ 2 ∷ []) r)
      else (c, r)

  -- The checks of every 500 ms.
  unfoldable pub periodic_checks : Seen F → Checks F → Watched M → Checks F × Watched M
  unfolding check_stalls check_current check_frequency check_thermal check_quality
  periodic_checks o c₀ r₀ =
      let (c₁, r₁) =
        frequency_checks o (record c₀ { last_stall_check = o.now }) (motion_checks o r₀) in
      let (c₂, r₂) = thermal_checks o c₁ r₁ in quality_checks o c₂ r₂

  abbrev pub watchdog_check : Seen F → Watched M → Watched M
  watchdog_check o r =
      if side.motion_is_moving r.motion && o.watchdog
      then alarm_once side (o.turn 8) rs485_timeout (negsuc 0) safety_rs485_timeout r
      else r

  abbrev pub with_duration : Seen F → Watched M → Watched M
  with_duration o r =
      if r.monitor.alarm_active
      then record r {
        monitor = record r.monitor {
          fault_duration_ms = elapsed o.now r.monitor.alarm_trigger_time;
        };
      }
      else r

  unfoldable pub safety_update : Seen F → Checks F → Watched M → Checks F × Watched M
  unfolding periodic_checks safety_trigger_alarm
  safety_update o c r =
      let (c₁, r₁) =
        if ltb 500 (elapsed o.now c.last_stall_check) then periodic_checks o c r else (c, r) in
      (c₁, with_duration o (watchdog_check o r₁))
