-- ===== src/SafetyMonitor/Events.antt =====
-- What happens to the monitor of src/safety.cpp, in any order.
use bisso_e350_controller.Base.{ℕ, ◌≡◌, refl, Bool, false, ltb, branches, List, [], ◌∷◌}
use bisso_e350_controller.Base.Int.{pos, negsuc}
use bisso_e350_controller.MotionBuffer.Ring.{Lock}
use bisso_e350_controller.Motion.Types.{motion_axes}
use bisso_e350_controller.Safety.{fault_error}
use bisso_e350_controller.SafetyMonitor.Latch.{
  SafetyFault, safety_ok, safety_stalled, safety_soft_limit, safety_plc_fault, safety_encoder_error,
  ◌fault_is◌, motion_stall, soft_limit_exceeded, encoder_timeout, plc_comm_loss, Report, fault_log,
  soft_limit_hit, MotionSide, Watched, Turn, Encoders, report, safety_trigger_alarm,
  safety_reset_alarm, safety_report_fault, safety_report_stall, safety_report_soft_limit,
  safety_report_encoder_error, safety_report_plc_fault,
}
use bisso_e350_controller.SafetyMonitor.Supervision.{Seen, Checks, safety_update}
use bisso_e350_controller.SafetyMonitor.Updates.{update-keeps}

-- What happens to the monitor; `elsewhere` is a command `C` of another task to the
-- machine.
pub data Event (F C : Type 0) : Type 0 where
  trigger : Turn → SafetyFault → Event F C
  stall : Turn → ℕ → Event F C
  soft_limit : Turn → ℕ → Event F C
  encoder_error : Turn → ℕ → Event F C
  plc_fault : Turn → Event F C
  update : Seen F → Event F C
  elsewhere : C → Event F C
  reset : Lock → ℕ → Encoders → Event F C

-- An alarm is raised for a fault.
abbrev pub HasFault : {F C : Type 0} → Event F C → Type 0
HasFault (trigger t fault) = (fault fault_is safety_ok) ≡ false
HasFault _ = Unit {0}

abbrev pub AllHaveFault : {F C : Type 0} → List (Event F C) → Type 0
AllHaveFault [] = Unit {0}
AllHaveFault (e ∷ events) = HasFault e × AllHaveFault events

abbrev pub NoReset : {F C : Type 0} → Event F C → Type 0
NoReset (reset lock now e) = ⊥
NoReset _ = Unit {0}

abbrev pub NoResets : {F C : Type 0} → List (Event F C) → Type 0
NoResets [] = Unit {0}
NoResets (e ∷ events) = NoReset e × NoResets events

-- A command acts on the machine, and is told whether the alarm is active.
module _ {F M C : Type 0} (side : MotionSide M) (act : C → Bool → M → M) where
  unfoldable pub happen : Event F C → Checks F × Watched M → Checks F × Watched M
  unfolding safety_trigger_alarm safety_report_stall safety_report_soft_limit
      safety_report_encoder_error safety_report_plc_fault safety_update safety_reset_alarm
  happen (trigger t fault) (c, r) = (c, safety_trigger_alarm side t fault r)
  happen (stall t axis) (c, r) = (c, safety_report_stall side t axis r)
  happen (soft_limit t axis) (c, r) = (c, safety_report_soft_limit side t axis r)
  happen (encoder_error t axis) (c, r) = (c, safety_report_encoder_error side t axis r)
  happen (plc_fault t) (c, r) = (c, safety_report_plc_fault side t r)
  happen (update o) (c, r) = safety_update side o c r
  happen (elsewhere x) (c, r) = (c, record r { motion = act x r.monitor.alarm_active r.motion })
  happen (reset lock now e) (c, r) = (c, safety_reset_alarm side lock now e r)

  unfoldable pub happen_all : List (Event F C) → Checks F × Watched M → Checks F × Watched M
  unfolding happen
  happen_all [] r = r
  happen_all (e ∷ events) r = happen_all events (happen e r)

module _ {F M C : Type 0} (side : MotionSide M) (act : C → Bool → M → M) (P : Watched M → Type 0)
    (keeps_trigger : (t : Turn) (fault : SafetyFault) (r : Watched M)
      → (fault fault_is safety_ok) ≡ false
      → P r
      → P (safety_trigger_alarm side t fault r))
    (keeps_report : (x : Report) (r : Watched M)
      → P r
      → P (record r { monitor = report x r.monitor }))
    (keeps_duration : (d : ℕ) (r : Watched M)
      → P r
      → P (record r { monitor = record r.monitor { fault_duration_ms = d } }))
    (keeps_elsewhere : (x : C) (r : Watched M)
      → P r
      → P (record r { motion = act x r.monitor.alarm_active r.motion })) where
  pub reported-keeps :
      (e : Event F C) (c : Checks F) (r : Watched M)
      → HasFault e
      → NoReset e
      → P r
      → P (happen side act e (c, r)).1
  unfolding happen safety_report_fault safety_report_stall safety_report_soft_limit
      safety_report_encoder_error safety_report_plc_fault
  reported-keeps (trigger t fault) c r h n p = keeps_trigger t fault r h p
  reported-keeps (stall t axis) c r h n p =
      branches P (ltb axis motion_axes) _ _
        (keeps_trigger t safety_stalled _ refl
          (keeps_report (fault_log fault_error motion_stall (pos axis)) r p))
        p
  reported-keeps (soft_limit t axis) c r h n p =
      branches P (ltb axis motion_axes) _ _
        (keeps_trigger t safety_soft_limit _ refl (
          keeps_report (fault_log fault_error soft_limit_exceeded (pos axis)) _
            (keeps_report soft_limit_hit r p)))
        p
  reported-keeps (encoder_error t axis) c r h n p =
      branches P (ltb axis motion_axes) _ _
        (keeps_trigger t safety_encoder_error _ refl
          (keeps_report (fault_log fault_error encoder_timeout (pos axis)) r p))
        p
  reported-keeps (plc_fault t) c r h n p =
      keeps_trigger t safety_plc_fault _ refl
        (keeps_report (fault_log fault_error plc_comm_loss (negsuc 0)) r p)
  reported-keeps (update o) c r h n p =
      update-keeps side P keeps_trigger keeps_report keeps_duration o c r p
  reported-keeps (elsewhere x) c r h n p = keeps_elsewhere x r p
  reported-keeps (reset lock now e) c r h n p = absurd n
