-- ===== src/SafetyMonitor/Machine.antt =====
-- The safety monitor with the motion engine: src/safety.cpp over src/motion_control.cpp.
use bisso_e350_controller.Base.{
  ℕ, ◌≡◌, refl, ◌∙◌, ap, Bool, true, false, not, if◌then◌else◌, ltb, branch, branches, List, [],
  ◌∷◌, arith, All,
}
use bisso_e350_controller.Base.Int.{pos}
use bisso_e350_controller.MotionBuffer.Ring.{Lock, no_mutex, timed_out, granted}
use bisso_e350_controller.Motion.Types.{MotionState, error, motion_axes, no_axis, is_driving}
use bisso_e350_controller.Motion.Handlers.{Inputs}
use bisso_e350_controller.Motion.Control.{
  Motion, axis_at, start_axis, transition_axis, motion_home, motion_stop, motion_wait_pin,
  motion_emergency_stop, motion_clear_emergency_stop, update_active,
}
use bisso_e350_controller.Motion.EmergencyStop.{emergency_stop_halts, disabled_refuses}
use bisso_e350_controller.Motion.OneActive.Runs.{
  Call, home, move, stop, pause, resume, dwell_for, wait_for_pin, emergency_stop, clear, tick,
  perform,
}
use bisso_e350_controller.SafetyMonitor.Latch.{
  SafetyFault, MotionSide, Watched, Turn, Encoders, latch, halt, is_granted, trigger_with,
  still_moving, safety_trigger_alarm, safety_reset_alarm,
}
use bisso_e350_controller.SafetyMonitor.Supervision.{Checks}
use bisso_e350_controller.SafetyMonitor.Events.{
  Event, HasFault, AllHaveFault, NoReset, NoResets, happen, happen_all, reported-keeps,
}

unfoldable pub motion_get_state : ℕ → Motion → MotionState
motion_get_state axis m = if not (ltb axis motion_axes) then error else (axis_at axis m).state

unfoldable pub motion_is_moving : Motion → Bool
unfolding still_moving
motion_is_moving m =
    if not (ltb m.shared.active_axis motion_axes)
    then false
    else still_moving (axis_at m.shared.active_axis m).state

pub stop-motion_is_moving :
    (now : ℕ) (m : Motion) → motion_is_moving (motion_emergency_stop now m) ≡ false
unfolding motion_is_moving
stop-motion_is_moving now m =
    let (e, n, g, d) = emergency_stop_halts now m in
    let outside : not (ltb (motion_emergency_stop now m).shared.active_axis motion_axes) ≡ true =
      ground arith in
    rw outside refl

-- The motion engine as the monitor uses it.
abbrev pub motion_side : MotionSide Motion
motion_side = record {
  motion_emergency_stop = motion_emergency_stop;
  motion_get_state = motion_get_state;
  motion_is_moving = motion_is_moving;
  stop_halts = stop-motion_is_moving;
}

-- A command of another task; the clearing of an emergency stop asks `safetyIsAlarmed`.
unfoldable pub command : Call → Bool → Motion → Motion
unfolding perform
command (clear flag now) alarmed m = perform (clear alarmed now) m
command c alarmed m = perform c m

home-disabled :
    (g : Bool) (now profile axis : ℕ) (m : Motion)
    → (motion_home g now profile axis m).0.global_enabled ≡ m.global_enabled
unfolding motion_home start_axis transition_axis
home-disabled g now profile axis m = ground arith

stop-disabled :
    (g : Bool) (now : ℕ) (m : Motion) → (motion_stop g now m).0.global_enabled ≡ m.global_enabled
unfolding motion_stop transition_axis
stop-disabled g now m = ground arith

update-disabled : (i : Inputs) (m : Motion) → (update_active i m).global_enabled ≡ m.global_enabled
unfolding update_active
update-disabled i m = ground arith

clear-disabled :
    (now : ℕ) (m : Motion)
    → m.global_enabled ≡ false
    → (motion_clear_emergency_stop true now m).0.global_enabled ≡ false
unfolding motion_clear_emergency_stop
clear-disabled now m off = ground arith

pin-disabled :
    (g : Bool) (now id kind level sec : ℕ) (m : Motion)
    → m.global_enabled ≡ false
    → (motion_wait_pin g now id kind level sec m).0.global_enabled ≡ false
unfolding motion_wait_pin
pin-disabled g now id kind level sec m off = ground arith

-- A refused command leaves motion disabled.
refused :
    (m : Motion) (r : Motion × Bool)
    → m.global_enabled ≡ false
    → r ≡ (m, false)
    → r.0.global_enabled ≡ false
refused m r off e = ap (λ (q : Motion × Bool). q.0.global_enabled) e ∙ off

command-disabled :
    (c : Call) (m : Motion) → m.global_enabled ≡ false → (command c true m).global_enabled ≡ false
unfolding command perform motion_emergency_stop
command-disabled (home g now profile axis) m off = home-disabled g now profile axis m ∙ off
command-disabled (move g now predicted profile requests) m off =
    refused m _ off (disabled_refuses g now 0 profile 0 predicted requests m off).0
command-disabled (stop g now) m off = stop-disabled g now m ∙ off
command-disabled (pause g now) m off =
    refused m _ off (disabled_refuses g now 0 0 0 (pos 0) [] m off).1
command-disabled (resume g now profile) m off =
    refused m _ off (disabled_refuses g now 0 profile 0 (pos 0) [] m off).2
command-disabled (dwell_for g now later ms) m off =
    refused m _ off (disabled_refuses g now later 0 ms (pos 0) [] m off).3
command-disabled (wait_for_pin g now id kind level sec) m off =
    pin-disabled g now id kind level sec m off
command-disabled (emergency_stop now) m off = refl
command-disabled (clear flag now) m off = clear-disabled now m off
command-disabled (tick i) m off = update-disabled i m ∙ off

-- The alarm is active and motion is disabled.
pub record IsHeld (r : Watched Motion) : Type 0 where
  pub active : r.monitor.alarm_active ≡ true
  pub disabled : r.motion.global_enabled ≡ false

halt-disabled :
    (now : ℕ) (r : Watched Motion) → (halt motion_side now r).motion.global_enabled ≡ false
unfolding motion_emergency_stop
halt-disabled now r = refl

trigger_with-IsHeld :
    (lock : Lock) (t : Turn) (fault : SafetyFault) (r : Watched Motion)
    → IsHeld r
    → IsHeld (trigger_with motion_side lock t fault r)
trigger_with-IsHeld no_mutex t fault r h = record {
  active = h.active;
  disabled = halt-disabled t.stop_now r;
}
trigger_with-IsHeld timed_out t fault r h = record {
  active = h.active;
  disabled = halt-disabled t.stop_now r;
}
trigger_with-IsHeld granted t fault r h =
    let on = h.active in
    branch IsHeld r.monitor.alarm_active _ _ (λ _. h) (λ off. absurd (ground arith))

trigger-IsHeld :
    (t : Turn) (fault : SafetyFault) (r : Watched Motion)
    → IsHeld r
    → IsHeld (safety_trigger_alarm motion_side t fault r)
unfolding safety_trigger_alarm
trigger-IsHeld t fault r h = trigger_with-IsHeld t.lock t fault r h

raise-IsHeld :
    (now stop_now : ℕ) (fault : SafetyFault) (r : Watched Motion)
    → r.monitor.alarm_active ≡ false
    → IsHeld (
        safety_trigger_alarm motion_side
          (record { lock = granted; now = now; stop_now = stop_now })
          fault
          r)
unfolding safety_trigger_alarm latch
raise-IsHeld now stop_now fault r off =
    branch IsHeld r.monitor.alarm_active _ _ (λ on. absurd (ground arith))
      (λ _. record {
        active = refl;
        disabled = halt-disabled stop_now (record r { monitor = latch now fault r.monitor });
      })

module _ {F : Type 0} where
  event-IsHeld :
      (e : Event F Call) (c : Checks F) (r : Watched Motion)
      → HasFault e
      → NoReset e
      → IsHeld r
      → IsHeld (happen motion_side command e (c, r)).1
  event-IsHeld =
      reported-keeps motion_side command IsHeld (λ t fault r _. trigger-IsHeld t fault r)
        (λ x r h. record { active = h.active; disabled = h.disabled })
        (λ d r h. record { active = h.active; disabled = h.disabled })
        (λ x r h. record {
          active = h.active;
          disabled =
              ap (λ (b : Bool). (command x b r.motion).global_enabled) h.active
              ∙ command-disabled x r.motion h.disabled;
        })

  stays-IsHeld :
      (events : List (Event F Call)) (c : Checks F) (r : Watched Motion)
      → AllHaveFault events
      → NoResets events
      → IsHeld r
      → IsHeld (happen_all motion_side command events (c, r)).1
  unfolding happen_all
  stays-IsHeld [] c r h n k = k
  stays-IsHeld (e ∷ events) c r h n k =
      let (c', r') = happen motion_side command e (c, r) in
      stays-IsHeld events c' r' h.1 n.1 (event-IsHeld e c r h.0 n.0 k)

  -- An alarm that is raised with the mutex disables motion, and motion stays disabled until a reset of
  -- the alarm: whatever is reported, and whatever commands and updates come, among them those that
  -- clear the emergency stop, in any order. Each alarm names a fault.
  pub alarm_disables_motion :
      (now stop_now : ℕ) (fault : SafetyFault) (events : List (Event F Call)) (c : Checks F)
      (r : Watched Motion)
      → r.monitor.alarm_active ≡ false
      → AllHaveFault events
      → NoResets events
      → let t : Turn = record { lock = granted; now = now; stop_now = stop_now } in
        IsHeld
          (happen_all motion_side command events (c, safety_trigger_alarm motion_side t fault r)).1
  alarm_disables_motion now stop_now fault events c r off h n =
      stays-IsHeld events c _ h n (raise-IsHeld now stop_now fault r off)

-- A trigger that does not get the mutex halts the machine.
trigger-halt :
    (lock : Lock) (t : Turn) (fault : SafetyFault) (r : Watched Motion)
    → is_granted motion_side lock ≡ false
    → trigger_with motion_side lock t fault r ≡ halt motion_side t.stop_now r
trigger-halt no_mutex t fault r n = refl
trigger-halt timed_out t fault r n = refl
trigger-halt granted t fault r n = cc

-- The clearing of an emergency stop behind it, with no alarm active.
clear-halted :
    (now later : ℕ) (r : Watched Motion)
    → r.monitor.alarm_active ≡ false
    → let r' = halt motion_side now r in
      (motion_clear_emergency_stop r'.monitor.alarm_active later r'.motion).0.global_enabled ≡ true
unfolding motion_clear_emergency_stop motion_emergency_stop
clear-halted now later r off = rw off refl

-- A reset with no alarm active.
reset-idle :
    (lock : Lock) (later : ℕ) (e : Encoders) (r : Watched Motion)
    → r.monitor.alarm_active ≡ false
    → safety_reset_alarm motion_side lock later e r ≡ r
unfolding safety_reset_alarm
reset-idle lock later e r off =
    branches {A = Watched Motion} (λ q. q ≡ r) (not (is_granted motion_side lock)) _ _ refl
      (branch {A = Watched Motion} (λ q. q ≡ r) (not r.monitor.alarm_active) _ _ (λ _. refl)
        (λ on. absurd (ground arith)))

-- With no alarm active, an alarm that does not get the mutex stops the machine: every axis is in
-- `error`, none is active, motion is disabled, and the outputs hold no movement command; and it raises
-- the pin. But no alarm is active and the fault is the one of before: the next attempt to clear the
-- emergency stop succeeds, and a reset, with or without the mutex, leaves the pin high.
pub forced_stop_unlatched :
    (t : Turn) (later : ℕ) (fault : SafetyFault) (lock : Lock) (e : Encoders) (r : Watched Motion)
    → r.monitor.alarm_active ≡ false
    → is_granted motion_side t.lock ≡ false
    → let r' = safety_trigger_alarm motion_side t fault r in
      All (λ a. a.state ≡ error) r'.motion.axes
      × (r'.motion.shared.active_axis ≡ no_axis)
      × (r'.motion.global_enabled ≡ false)
      × (is_driving r'.motion.shared.outputs ≡ false)
      × (r'.monitor.alarm_pin ≡ true)
      × (r'.monitor.alarm_active ≡ false)
      × (r'.monitor.current_fault ≡ r.monitor.current_fault)
      × ((motion_clear_emergency_stop r'.monitor.alarm_active later r'.motion).0.global_enabled
          ≡ true)
      × ((safety_reset_alarm motion_side lock later e r').monitor.alarm_pin ≡ true)
unfolding safety_trigger_alarm
forced_stop_unlatched t later fault lock e r off n =
    let (a, i, d, o) = emergency_stop_halts t.stop_now r.motion in
    rw (trigger-halt t.lock t fault r n) (
      a,
      i,
      d,
      o,
      refl,
      off,
      refl,
      clear-halted t.stop_now later r off,
      ap (λ (q : Watched Motion). q.monitor.alarm_pin)
          (reset-idle lock later e (halt motion_side t.stop_now r) off),
    )
