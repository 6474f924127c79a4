-- ===== src/SafetyMonitor/Reset.antt =====
-- When `safetyResetAlarm` of src/safety.cpp lifts an alarm.
use bisso_e350_controller.Base.{
  ℕ, zero, suc, ◌<◌, ◌≤◌, ◌≡◌, ◌↔◌, refl, Bool, true, false, not, ◌&&◌, ◌||◌, if◌then◌else◌, ltb,
  elapsed, arith,
}
use bisso_e350_controller.MotionBuffer.Ring.{Lock, no_mutex, timed_out, granted}
use bisso_e350_controller.Motion.Types.{
  MotionState, idle, wait_consenso, executing, stopping, paused, error, homing_approach_fast,
  homing_backoff, homing_approach_fine, homing_settle, dwell, wait_pin,
}
use bisso_e350_controller.SafetyMonitor.Latch.{
  safety_encoder_error, ◌fault_is◌, MotionSide, Watched, Encoders, still_moving, any_axis,
  is_granted, safety_reset_alarm,
}

any_axis-none : (f : ℕ → Bool) → any_axis f ≡ false → (a : ℕ) → a < 4 → f a ≡ false
any_axis-none f h zero l = ground arith
any_axis-none f h (suc zero) l = ground arith
any_axis-none f h (suc (suc zero)) l = ground arith
any_axis-none f h (suc (suc (suc zero))) l = ground arith
any_axis-none f h (suc (suc (suc (suc a)))) l = absurd (omega arith)

none-any_axis : (f : ℕ → Bool) → ((a : ℕ) → a < 4 → f a ≡ false) → any_axis f ≡ false
none-any_axis f h =
    rw (h 0 (omega arith), h 1 (omega arith), h 2 (omega arith), h 3 (omega arith)) refl

-- The states that let a reset pass.
abbrev pub LetsReset : MotionState → Type 0
LetsReset executing = ⊥
LetsReset wait_consenso = ⊥
LetsReset homing_approach_fast = ⊥
LetsReset homing_backoff = ⊥
LetsReset homing_approach_fine = ⊥
LetsReset _ = Unit {0}

lets-still_moving : (s : MotionState) → LetsReset s → still_moving s ≡ false
unfolding still_moving
lets-still_moving idle l = refl
lets-still_moving stopping l = refl
lets-still_moving paused l = refl
lets-still_moving error l = refl
lets-still_moving homing_settle l = refl
lets-still_moving dwell l = refl
lets-still_moving wait_pin l = refl
lets-still_moving executing l = absurd l
lets-still_moving wait_consenso l = absurd l
lets-still_moving homing_approach_fast l = absurd l
lets-still_moving homing_backoff l = absurd l
lets-still_moving homing_approach_fine l = absurd l

still_moving-LetsReset : (s : MotionState) → still_moving s ≡ false → LetsReset s
unfolding still_moving
still_moving-LetsReset idle h = tt
still_moving-LetsReset stopping h = tt
still_moving-LetsReset paused h = tt
still_moving-LetsReset error h = tt
still_moving-LetsReset homing_settle h = tt
still_moving-LetsReset dwell h = tt
still_moving-LetsReset wait_pin h = tt
still_moving-LetsReset executing h = cc
still_moving-LetsReset wait_consenso h = cc
still_moving-LetsReset homing_approach_fast h = cc
still_moving-LetsReset homing_backoff h = cc
still_moving-LetsReset homing_approach_fine h = cc

-- The encoders answer.
pub record AllAnswer (e : Encoders) : Type 0 where
  pub status : e.status_bad ≡ false
  pub fresh : (a : ℕ) → a < 4 → e.is_stale a ≡ false

silent-AllAnswer : (e : Encoders) → (e.status_bad || any_axis e.is_stale) ≡ false → AllAnswer e
silent-AllAnswer e h =
    let s : any_axis e.is_stale ≡ false = ground arith in
    record { status = ground arith; fresh = any_axis-none e.is_stale s }

AllAnswer-silent : (e : Encoders) → AllAnswer e → (e.status_bad || any_axis e.is_stale) ≡ false
AllAnswer-silent e a = rw (a.status, none-any_axis e.is_stale a.fresh) refl

module _ {M : Type 0} (side : MotionSide M) where
  -- The mutex is free, no axis moves, the encoders answer if the alarm is about them, and a second has
  -- passed.
  pub record CanReset (lock : Lock) (now : ℕ) (e : Encoders) (r : Watched M) : Type 0 where
    pub free : lock ≡ granted
    pub halted : (a : ℕ) → a < 4 → LetsReset (side.motion_get_state a r.motion)
    pub answers : (r.monitor.current_fault fault_is safety_encoder_error) ≡ true → AllAnswer e
    pub late : 1000 ≤ elapsed now r.monitor.alarm_trigger_time

  free_lock : (lock : Lock) → not (is_granted side lock) ≡ false → lock ≡ granted
  free_lock granted h = refl
  free_lock no_mutex h = cc
  free_lock timed_out h = cc

  reset_tests :
      (busy off moving unheard early : Bool) (r lifted : Watched M)
      → r.monitor.alarm_active ≡ true
      → lifted.monitor.alarm_active ≡ false
      → ((if busy
            then r
            else if off
            then r
            else if moving
            then r
            else if unheard
            then r
            else if early
            then r
            else lifted).monitor.alarm_active
          ≡ false)
      → (busy ≡ false) × (moving ≡ false) × (unheard ≡ false) × (early ≡ false)
  reset_tests true off moving unheard early r lifted a l h = absurd (ground arith)
  reset_tests false true moving unheard early r lifted a l h = absurd (ground arith)
  reset_tests false false true unheard early r lifted a l h = absurd (ground arith)
  reset_tests false false false true early r lifted a l h = absurd (ground arith)
  reset_tests false false false false true r lifted a l h = absurd (ground arith)
  reset_tests false false false false false r lifted a l h = (refl, refl, refl, refl)

  unheard-answers :
      (bad about : Bool) → (not (not bad) && about) ≡ false → about ≡ true → bad ≡ false
  unheard-answers bad about h k = ground arith

  answers-unheard :
      (bad about : Bool) → (about ≡ true → bad ≡ false) → (not (not bad) && about) ≡ false
  answers-unheard bad true k = rw (k refl) refl
  answers-unheard true false k = refl
  answers-unheard false false k = refl

  -- An attempt to reset an active alarm lifts it exactly when the mutex is free, none of the four axes
  -- is in a state of movement, the encoders answer in case the alarm is about them, and at least
  -- 1000 ms have passed since it was raised.
  pub reset_iff :
      (lock : Lock) (now : ℕ) (e : Encoders) (r : Watched M)
      → r.monitor.alarm_active ≡ true
      → ((safety_reset_alarm side lock now e r).monitor.alarm_active ≡ false)
        ↔ CanReset lock now e r
  unfolding safety_reset_alarm
  reset_iff lock now e r on = (
    λ h.
        let (b, m, u, t) =
          reset_tests (not (is_granted side lock)) (not r.monitor.alarm_active)
            (any_axis (λ a. still_moving (side.motion_get_state a r.motion)))
            (not (not (e.status_bad || any_axis e.is_stale))
              && (r.monitor.current_fault fault_is safety_encoder_error))
            (ltb (elapsed now r.monitor.alarm_trigger_time) 1000) r _ on refl h in
        record {
          free = free_lock lock b;
          halted = λ a l.
              still_moving-LetsReset (side.motion_get_state a r.motion)
                (any_axis-none (λ a. still_moving (side.motion_get_state a r.motion)) m a l);
          answers = λ about. silent-AllAnswer e (
              unheard-answers (e.status_bad || any_axis e.is_stale)
                (r.monitor.current_fault fault_is safety_encoder_error) u about);
          late = ground arith;
        },
    λ c.
        let m =
          none-any_axis (λ a. still_moving (side.motion_get_state a r.motion))
            (λ a l. lets-still_moving (side.motion_get_state a r.motion) (c.halted a l)) in
        let u =
          answers-unheard (e.status_bad || any_axis e.is_stale)
            (r.monitor.current_fault fault_is safety_encoder_error)
            (λ about. AllAnswer-silent e (c.answers about)) in
        let early : ltb (elapsed now r.monitor.alarm_trigger_time) 1000 ≡ false =
          let l = c.late in ground arith in
        rw (c.free, on, m, u, early) refl,
  )
