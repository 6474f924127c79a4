-- ===== src/SafetyMonitor/Stops.antt =====
-- An alarm of src/safety.cpp stops the machine.
use bisso_e350_controller.Base.{
  ℕ, ◌<◌, ◌≡◌, refl, ◌⊎◌, inl, inr, true, false, not, ltb, branch, branches, arith,
}
use bisso_e350_controller.Base.Int.{pos, negsuc}
use bisso_e350_controller.MotionBuffer.Ring.{Lock, no_mutex, timed_out, granted}
use bisso_e350_controller.Safety.{fault_error}
use bisso_e350_controller.SafetyMonitor.Latch.{
  SafetyFault, safety_ok, safety_stalled, safety_rs485_timeout, ◌fault_is◌, motion_stall,
  rs485_timeout, Report, fault_log, MotionSide, Watched, Turn, report, latch, halt, trigger_with,
  safety_trigger_alarm, safety_report_fault, safety_report_stall,
}
use bisso_e350_controller.SafetyMonitor.Supervision.{alarm_once}

module _ {M : Type 0} (side : MotionSide M) where
  -- The alarm pin is high and the machine does not move.
  pub record IsHalted (r : Watched M) : Type 0 where
    pub pin : r.monitor.alarm_pin ≡ true
    pub still : side.motion_is_moving r.motion ≡ false

  halt-IsHalted : (now : ℕ) (r : Watched M) → IsHalted (halt side now r)
  halt-IsHalted now r = record { pin = refl; still = side.stop_halts now r.motion }

  trigger_with-IsHalted :
      (lock : Lock) (t : Turn) (fault : SafetyFault) (r : Watched M)
      → IsHalted r
      → IsHalted (trigger_with side lock t fault r)
  trigger_with-IsHalted no_mutex t fault r h = halt-IsHalted t.stop_now r
  trigger_with-IsHalted timed_out t fault r h = halt-IsHalted t.stop_now r
  trigger_with-IsHalted granted t fault r h =
      branches IsHalted r.monitor.alarm_active _ _ h
        (halt-IsHalted t.stop_now (record r { monitor = latch t.now fault r.monitor }))

  trigger_with-halts :
      (lock : Lock) (t : Turn) (fault : SafetyFault) (r : Watched M)
      → r.monitor.alarm_active ≡ false
      → IsHalted (trigger_with side lock t fault r)
  trigger_with-halts no_mutex t fault r off = halt-IsHalted t.stop_now r
  trigger_with-halts timed_out t fault r off = halt-IsHalted t.stop_now r
  trigger_with-halts granted t fault r off =
      branch IsHalted r.monitor.alarm_active _ _ (λ on. absurd (ground arith))
        (λ _. halt-IsHalted t.stop_now (record r { monitor = latch t.now fault r.monitor }))

  -- A machine as it was, with no alarm, or one that was stopped.
  unfoldable pub Waits : M → Watched M → Type 0
  Waits m r = ((r.monitor.alarm_active ≡ false) × (r.motion ≡ m)) ⊎ IsHalted r

  trigger-halts :
      (m : M) (t : Turn) (fault : SafetyFault) (r : Watched M)
      → Waits m r
      → IsHalted (safety_trigger_alarm side t fault r)
  unfolding Waits safety_trigger_alarm
  trigger-halts m t fault r (inl (off, same)) = trigger_with-halts t.lock t fault r off
  trigger-halts m t fault r (inr h) = trigger_with-IsHalted t.lock t fault r h

  pub trigger-Waits :
      (m : M) (t : Turn) (fault : SafetyFault) (r : Watched M)
      → (fault fault_is safety_ok) ≡ false
      → Waits m r
      → Waits m (safety_trigger_alarm side t fault r)
  unfolding Waits
  trigger-Waits m t fault r n w = inr (trigger-halts m t fault r w)

  pub report-Waits :
      (m : M) (x : Report) (r : Watched M)
      → Waits m r
      → Waits m (record r { monitor = report x r.monitor })
  unfolding Waits
  report-Waits m x r (inl w) = inl w
  report-Waits m x r (inr h) = inr (record { pin = h.pin; still = h.still })

  pub duration-Waits :
      (m : M) (d : ℕ) (r : Watched M)
      → Waits m r
      → Waits m (record r { monitor = record r.monitor { fault_duration_ms = d } })
  unfolding Waits
  duration-Waits m d r (inl w) = inl w
  duration-Waits m d r (inr h) = inr (record { pin = h.pin; still = h.still })

  pub trigger-IsHalted :
      (t : Turn) (fault : SafetyFault) (r : Watched M)
      → (fault fault_is safety_ok) ≡ false
      → IsHalted r
      → IsHalted (safety_trigger_alarm side t fault r)
  unfolding safety_trigger_alarm
  trigger-IsHalted t fault r n h = trigger_with-IsHalted t.lock t fault r h

  pub report-IsHalted :
      (x : Report) (r : Watched M)
      → IsHalted r
      → IsHalted (record r { monitor = report x r.monitor })
  report-IsHalted x r h = record { pin = h.pin; still = h.still }

  pub duration-IsHalted :
      (d : ℕ) (r : Watched M)
      → IsHalted r
      → IsHalted (record r { monitor = record r.monitor { fault_duration_ms = d } })
  duration-IsHalted d r h = record { pin = h.pin; still = h.still }

  pub stall-halts :
      (m : M) (t : Turn) (axis : ℕ) (r : Watched M)
      → axis < 4
      → Waits m r
      → IsHalted (safety_report_stall side t axis r)
  unfolding safety_report_stall safety_report_fault
  stall-halts m t axis r l w =
      let inside : ltb axis 4 ≡ true = ground arith in
      let x = fault_log fault_error motion_stall (pos axis) in
      rw inside (
        trigger-halts m t safety_stalled (record r { monitor = report x r.monitor })
          (report-Waits m x r w))

  pub once-halts :
      (m : M) (t : Turn) (r : Watched M)
      → Waits m r
      → (r.monitor.alarm_active ≡ true → IsHalted r)
      → IsHalted (alarm_once side t rs485_timeout (negsuc 0) safety_rs485_timeout r)
  once-halts m t r w k =
      let x = fault_log fault_error rs485_timeout (negsuc 0) in
      branch IsHalted (not r.monitor.alarm_active) _ _
        (λ _.
          trigger-halts m t safety_rs485_timeout (record r { monitor = report x r.monitor })
            (report-Waits m x r w))
        (λ e. k (ground arith))
