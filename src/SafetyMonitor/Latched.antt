-- ===== src/SafetyMonitor/Latched.antt =====
-- The alarm of src/safety.cpp over time: what holds whatever happens, and until a reset.
use bisso_e350_controller.Base.{
  ℕ, ◌<◌, ◌≡◌, refl, ◌∙◌, Bool, true, false, not, ltb, branch, branches, elapsed, List, [], ◌∷◌,
  length, length-set, arith,
}
use bisso_e350_controller.MotionBuffer.Ring.{Lock, no_mutex, timed_out, granted}
use bisso_e350_controller.SafetyMonitor.Latch.{
  SafetyFault, safety_ok, ◌fault_is◌, Report, Monitor, MotionSide, Watched, Turn, Encoders, report,
  latch, still_moving, any_axis, is_granted, trigger_with, safety_trigger_alarm, safety_reset_alarm,
}
use bisso_e350_controller.SafetyMonitor.Supervision.{Checks}
use bisso_e350_controller.SafetyMonitor.Events.{
  Event, trigger, stall, soft_limit, encoder_error, plc_fault, update, elsewhere, reset, HasFault,
  AllHaveFault, NoReset, NoResets, happen, happen_all, reported-keeps,
}

-- A fault is current exactly while the alarm is active, the alarm pin is high then, and the history
-- keeps its shape.
pub record IsLatched (s : Monitor) : Type 0 where
  pub fault_iff : (s.current_fault fault_is safety_ok) ≡ not s.alarm_active
  pub raised : s.alarm_active ≡ true → s.alarm_pin ≡ true
  pub history : length s.fault_history ≡ 16
  pub in_range : s.history_index < 16

-- An alarm that is active with the cause, the time, the count and the history of another one.
pub record SameAlarm (s s' : Monitor) : Type 0 where
  pub active : s'.alarm_active ≡ true
  pub cause : s'.current_fault ≡ s.current_fault
  pub since : s'.alarm_trigger_time ≡ s.alarm_trigger_time
  pub faults : s'.fault_count ≡ s.fault_count
  pub same_history : s'.fault_history ≡ s.fault_history

report-IsLatched : (x : Report) (s : Monitor) → IsLatched s → IsLatched (report x s)
report-IsLatched x s l = record {
  fault_iff = l.fault_iff;
  raised = l.raised;
  history = l.history;
  in_range = l.in_range;
}

duration-IsLatched :
    (d : ℕ) (s : Monitor) → IsLatched s → IsLatched (record s { fault_duration_ms = d })
duration-IsLatched d s l = record {
  fault_iff = l.fault_iff;
  raised = l.raised;
  history = l.history;
  in_range = l.in_range;
}

pinned-IsLatched : (s : Monitor) → IsLatched s → IsLatched (record s { alarm_pin = true })
pinned-IsLatched s l = record {
  fault_iff = l.fault_iff;
  raised = λ h. refl;
  history = l.history;
  in_range = l.in_range;
}

latch-IsLatched :
    (now : ℕ) (fault : SafetyFault) (s : Monitor)
    → (fault fault_is safety_ok) ≡ false
    → IsLatched s
    → IsLatched (record (latch now fault s) { alarm_pin = true })
unfolding latch
latch-IsLatched now fault s n l = record {
  fault_iff = n;
  raised = λ h. refl;
  history = length-set s.fault_history s.history_index fault ∙ l.history;
  in_range = omega arith;
}

module _ {M : Type 0} (side : MotionSide M) where
  trigger_with-IsLatched :
      (lock : Lock) (t : Turn) (fault : SafetyFault) (r : Watched M)
      → (fault fault_is safety_ok) ≡ false
      → IsLatched r.monitor
      → IsLatched (trigger_with side lock t fault r).monitor
  trigger_with-IsLatched no_mutex t fault r n l = pinned-IsLatched r.monitor l
  trigger_with-IsLatched timed_out t fault r n l = pinned-IsLatched r.monitor l
  trigger_with-IsLatched granted t fault r n l =
      branches {A = Watched M} (λ q. IsLatched q.monitor) r.monitor.alarm_active _ _ l
        (latch-IsLatched t.now fault r.monitor n l)

  trigger-IsLatched :
      (t : Turn) (fault : SafetyFault) (r : Watched M)
      → (fault fault_is safety_ok) ≡ false
      → IsLatched r.monitor
      → IsLatched (safety_trigger_alarm side t fault r).monitor
  unfolding safety_trigger_alarm
  trigger-IsLatched t fault r n l = trigger_with-IsLatched t.lock t fault r n l

  reset-IsLatched :
      (lock : Lock) (now : ℕ) (e : Encoders) (r : Watched M)
      → IsLatched r.monitor
      → IsLatched (safety_reset_alarm side lock now e r).monitor
  unfolding safety_reset_alarm
  reset-IsLatched lock now e r l =
      let P : Watched M → Type 0 = λ q. IsLatched q.monitor in
      branches P (not (is_granted side lock)) _ _ l (
        branches P (not r.monitor.alarm_active) _ _ l (
          branches P (any_axis (λ a. still_moving (side.motion_get_state a r.motion))) _ _ l (
            branches P _ _ _ l (
              branches P (ltb (elapsed now r.monitor.alarm_trigger_time) 1000) _ _ l (record {
                fault_iff = refl;
                raised = λ h. absurd (ground arith);
                history = l.history;
                in_range = l.in_range;
              })))))

  trigger_with-SameAlarm :
      (s : Monitor) (lock : Lock) (t : Turn) (fault : SafetyFault) (r : Watched M)
      → SameAlarm s r.monitor
      → SameAlarm s (trigger_with side lock t fault r).monitor
  trigger_with-SameAlarm s no_mutex t fault r a = record {
    active = a.active;
    cause = a.cause;
    since = a.since;
    faults = a.faults;
    same_history = a.same_history;
  }
  trigger_with-SameAlarm s timed_out t fault r a = record {
    active = a.active;
    cause = a.cause;
    since = a.since;
    faults = a.faults;
    same_history = a.same_history;
  }
  trigger_with-SameAlarm s granted t fault r a =
      let on = a.active in
      branch {A = Watched M} (λ q. SameAlarm s q.monitor) r.monitor.alarm_active _ _ (λ _. a)
        (λ off. absurd (ground arith))

  trigger-SameAlarm :
      (s : Monitor) (t : Turn) (fault : SafetyFault) (r : Watched M)
      → SameAlarm s r.monitor
      → SameAlarm s (safety_trigger_alarm side t fault r).monitor
  unfolding safety_trigger_alarm
  trigger-SameAlarm s t fault r a = trigger_with-SameAlarm s t.lock t fault r a

report-SameAlarm :
    (s₀ : Monitor) (x : Report) (s : Monitor) → SameAlarm s₀ s → SameAlarm s₀ (report x s)
report-SameAlarm s₀ x s a = record {
  active = a.active;
  cause = a.cause;
  since = a.since;
  faults = a.faults;
  same_history = a.same_history;
}

duration-SameAlarm :
    (s₀ : Monitor) (d : ℕ) (s : Monitor)
    → SameAlarm s₀ s
    → SameAlarm s₀ (record s { fault_duration_ms = d })
duration-SameAlarm s₀ d s a = record {
  active = a.active;
  cause = a.cause;
  since = a.since;
  faults = a.faults;
  same_history = a.same_history;
}

module _ {F M C : Type 0} (side : MotionSide M) (act : C → Bool → M → M) where
  unreset-IsLatched :
      (e : Event F C) (c : Checks F) (r : Watched M)
      → HasFault e
      → NoReset e
      → IsLatched r.monitor
      → IsLatched (happen side act e (c, r)).1.monitor
  unreset-IsLatched =
      reported-keeps side act (λ (r : Watched M). IsLatched r.monitor) (trigger-IsLatched side)
        (λ x r. report-IsLatched x r.monitor) (λ d r. duration-IsLatched d r.monitor) (λ x r l. l)

  event-IsLatched :
      (e : Event F C) (c : Checks F) (r : Watched M)
      → HasFault e
      → IsLatched r.monitor
      → IsLatched (happen side act e (c, r)).1.monitor
  unfolding happen
  event-IsLatched (reset lock now enc) c r h l = reset-IsLatched side lock now enc r l
  event-IsLatched (trigger t fault) c r h l = unreset-IsLatched (trigger t fault) c r h tt l
  event-IsLatched (stall t axis) c r h l = unreset-IsLatched (stall t axis) c r h tt l
  event-IsLatched (soft_limit t axis) c r h l = unreset-IsLatched (soft_limit t axis) c r h tt l
  event-IsLatched (encoder_error t axis) c r h l =
      unreset-IsLatched (encoder_error t axis) c r h tt l
  event-IsLatched (plc_fault t) c r h l = unreset-IsLatched (plc_fault t) c r h tt l
  event-IsLatched (update o) c r h l = unreset-IsLatched (update o) c r h tt l
  event-IsLatched (elsewhere x) c r h l = unreset-IsLatched (elsewhere x) c r h tt l

  -- Whatever happens, and in whatever order, a fault is current exactly while the alarm is active,
  -- the alarm pin is high then, and the history has its 16 entries with an index in range, when it
  -- was so before. Each alarm that is raised names a fault.
  pub happen_all-IsLatched :
      (events : List (Event F C)) (c : Checks F) (r : Watched M)
      → AllHaveFault events
      → IsLatched r.monitor
      → IsLatched (happen_all side act events (c, r)).1.monitor
  unfolding happen_all
  happen_all-IsLatched [] c r h l = l
  happen_all-IsLatched (e ∷ events) c r h l =
      let (c', r') = happen side act e (c, r) in
      happen_all-IsLatched events c' r' h.1 (event-IsLatched e c r h.0 l)

  unreset-SameAlarm :
      (s : Monitor) (e : Event F C) (c : Checks F) (r : Watched M)
      → HasFault e
      → NoReset e
      → SameAlarm s r.monitor
      → SameAlarm s (happen side act e (c, r)).1.monitor
  unreset-SameAlarm s =
      reported-keeps side act (λ (r : Watched M). SameAlarm s r.monitor)
        (λ t fault r _. trigger-SameAlarm side s t fault r) (λ x r. report-SameAlarm s x r.monitor)
        (λ d r. duration-SameAlarm s d r.monitor) (λ x r a. a)

  -- An active alarm stays active until a reset, whatever happens, and keeps its cause, its time, its
  -- number and the history: later faults are not put in its place.
  pub happen_all-SameAlarm :
      (s : Monitor) (events : List (Event F C)) (c : Checks F) (r : Watched M)
      → AllHaveFault events
      → NoResets events
      → SameAlarm s r.monitor
      → SameAlarm s (happen_all side act events (c, r)).1.monitor
  unfolding happen_all
  happen_all-SameAlarm s [] c r h n a = a
  happen_all-SameAlarm s (e ∷ events) c r h n a =
      let (c', r') = happen side act e (c, r) in
      happen_all-SameAlarm s events c' r' h.1 n.1 (unreset-SameAlarm s e c r h.0 n.0 a)
