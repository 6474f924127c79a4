-- ===== src/SafetyMonitor/Updates.antt =====
-- What an update of src/safety.cpp keeps, whatever it sees, when its steps keep it.
use bisso_e350_controller.Base.{
  ℕ, ◌≡◌, refl, false, not, ◌&&◌, ltb, branches, elapsed, Option, none, some, List, [], ◌∷◌,
}
use bisso_e350_controller.Base.Int.{ℤ, pos, negsuc}
use bisso_e350_controller.Safety.{fault_error, fault_warning}
use bisso_e350_controller.SafetyMonitor.Latch.{
  SafetyFault, safety_ok, safety_stalled, safety_thermal, safety_rs485_timeout, ◌fault_is◌,
  FaultCode, motion_stall, temperature_high, rs485_timeout, Report, fault_log, MotionSide, Watched,
  Turn, report, safety_trigger_alarm, safety_report_fault, safety_report_stall,
}
use bisso_e350_controller.SafetyMonitor.Supervision.{
  AxisMetrics, is_degraded, Seen, Checks, in_percent, alarm_once, is_stalled, check_stalls,
  check_current, frequency_valid, check_frequency, check_thermal, check_quality, check_axis,
  motion_checks, frequency_checks, thermal_checks, quality_checks, periodic_checks, watchdog_check,
  with_duration, safety_update,
}

module _ {F M : Type 0} (side : MotionSide M) (P : Watched M → Type 0)
    (keeps_trigger : (t : Turn) (fault : SafetyFault) (r : Watched M)
      → (fault fault_is safety_ok) ≡ false
      → P r
      → P (safety_trigger_alarm side t fault r))
    (keeps_report : (x : Report) (r : Watched M)
      → P r
      → P (record r { monitor = report x r.monitor }))
    (keeps_duration : (d : ℕ) (r : Watched M)
      → P r
      → P (record r { monitor = record r.monitor { fault_duration_ms = d } })) where
  once-keeps :
      (o : Seen F) (place : ℕ) (code : FaultCode) (axis : ℤ) (fault : SafetyFault) (r : Watched M)
      → (fault fault_is safety_ok) ≡ false
      → P r
      → P (alarm_once side (o.turn place) code axis fault r)
  once-keeps o place code axis fault r n p =
      branches P (not r.monitor.alarm_active) _ _
        (keeps_trigger (o.turn place) fault _ n
          (keeps_report (fault_log fault_error code axis) r p))
        p

  pub stall-keeps :
      (o : Seen F) (place axis : ℕ) (r : Watched M)
      → P r
      → P (safety_report_stall side (o.turn place) axis r)
  unfolding safety_report_stall safety_report_fault
  stall-keeps o place axis r p =
      branches P (ltb axis 4) _ _
        (keeps_trigger (o.turn place) safety_stalled _ refl
          (keeps_report (fault_log fault_error motion_stall (pos axis)) r p))
        p

  pub stalls-keeps :
      (o : Seen F) (axes : List ℕ) (r : Watched M) → P r → P (check_stalls side o axes r)
  unfolding check_stalls
  stalls-keeps o [] r p = p
  stalls-keeps o (axis ∷ axes) r p =
      stalls-keeps o axes _
        (branches P (is_stalled side o axis r) _ _ (stall-keeps o axis axis r p) p)

  pub current-keeps : (o : Seen F) (r : Watched M) → P r → P (check_current side o r)
  unfolding check_current
  current-keeps o r p = branches P _ _ _ (stall-keeps o 4 0 r p) p

  frequency-keeps :
      (o : Seen F) (c : Checks F) (r : Watched M) → P r → P (check_frequency side o c r)
  unfolding check_frequency
  frequency-keeps o c r p =
      branches P (frequency_valid side o && o.lost_from c.last_frequency) _ _
        (once-keeps o 5 motion_stall (pos 0) safety_stalled r refl p) p

  thermal-keeps : (o : Seen F) (c : Checks F) (r : Watched M) → P r → P (check_thermal side o c r).1
  unfolding check_thermal
  thermal-keeps o c r p =
      branches {A = Checks F × Watched M} (λ q. P q.1)
        (ltb (elapsed o.now o.thermal_read_at) 1000 && in_percent o.thermal_state) _ _
        (branches {A = Checks F × Watched M} (λ q. P q.1) o.is_critical _ _
          (once-keeps o 6 temperature_high (pos 0) safety_thermal r refl p)
          (branches {A = Checks F × Watched M} (λ q. P q.1) _ _ _
            (keeps_report (fault_log fault_warning temperature_high (negsuc 0)) r p) p))
        p

  axis-keeps :
      (o : Seen F) (axis : ℕ) (found : Option AxisMetrics) (r rest : Watched M)
      → P r
      → P rest
      → P (check_axis side (o.turn 7) axis found r rest)
  axis-keeps o axis none r rest p q = q
  axis-keeps o axis (some a) r rest p q =
      branches P (is_degraded a && not r.monitor.alarm_active) _ _
        (once-keeps o 7 motion_stall (pos axis) safety_stalled r refl p) q

  quality-keeps :
      (o : Seen F) (axes : List ℕ) (r : Watched M) → P r → P (check_quality side o axes r)
  unfolding check_quality
  quality-keeps o [] r p = p
  quality-keeps o (axis ∷ axes) r p =
      axis-keeps o axis (o.metrics axis) r _ p (quality-keeps o axes r p)

  pub motion_checks-keeps : (o : Seen F) (r : Watched M) → P r → P (motion_checks side o r)
  motion_checks-keeps o r p =
      branches P (side.motion_is_moving r.motion) _ _
        (current-keeps o _ (stalls-keeps o (0 ∷ 1 ∷ 2 ∷ 3 ∷ []) r p)) p

  frequency_checks-keeps :
      (o : Seen F) (c : Checks F) (r : Watched M) → P r → P (frequency_checks side o c r).1
  frequency_checks-keeps o c r p =
      branches {A = Checks F × Watched M} (λ q. P q.1) (side.motion_is_moving r.motion) _ _
        (frequency-keeps o c r p) p

  later-keeps :
      (o : Seen F) (c : Checks F) (r : Watched M)
      → P r
      → let (c', r') = thermal_checks side o c r in P (quality_checks side o c' r').1
  later-keeps o c r p =
      let (c', r') = thermal_checks side o c r in
      let q : P r' =
        branches {A = Checks F × Watched M} (λ q. P q.1)
          (ltb 1000 (elapsed o.now c.last_thermal_check)) _ _
          (thermal-keeps o (record c { last_thermal_check = o.now }) r p) p in
      branches {A = Checks F × Watched M} (λ q. P q.1)
        (ltb 500 (elapsed o.now c'.last_axis_quality_check)) _ _
        (quality-keeps o (0 ∷ 1 ∷ 2 ∷ []) r' q) q

  -- The checks behind those of the axes and of the current.
  pub rest-keeps :
      (o : Seen F) (c : Checks F) (r : Watched M)
      → P (motion_checks side o r)
      → P (periodic_checks side o c r).1
  unfolding periodic_checks
  rest-keeps o c r p =
      later-keeps o _ _ (
        frequency_checks-keeps o (record c { last_stall_check = o.now }) (motion_checks side o r) p)

  pub last-keeps :
      (o : Seen F) (r : Watched M) → P r → P (with_duration side o (watchdog_check side o r))
  last-keeps o r p =
      let q : P (watchdog_check side o r) =
        branches P (side.motion_is_moving r.motion && o.watchdog) _ _
          (once-keeps o 8 rs485_timeout (negsuc 0) safety_rs485_timeout r refl p) p in
      let r' = watchdog_check side o r in
      branches P r'.monitor.alarm_active _ _
        (keeps_duration (elapsed o.now r'.monitor.alarm_trigger_time) r' q) q

  pub update-keeps :
      (o : Seen F) (c : Checks F) (r : Watched M) → P r → P (safety_update side o c r).1
  unfolding safety_update
  update-keeps o c r p = last-keeps o _ (
      branches {A = Checks F × Watched M} (λ q. P q.1) (ltb 500 (elapsed o.now c.last_stall_check))
        _ _ (rest-keeps o c r (motion_checks-keeps o r p)) p)
