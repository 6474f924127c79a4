-- ===== src/Motion/StopCommand.antt =====
-- The stop command, pause and resume, on the active axis.
use bisso_e350_controller.Base.{
  ℕ, ◌<◌, ◌≡◌, ◌≢◌, refl, ◌⊎◌, inl, inr, true, false, Bool-cases, ◌||◌, ◌==◌, if◌then◌else◌, arith,
  length, length-set, ap, ◌∙◌, elapsed, get_or-set_self,
}
use bisso_e350_controller.Motion.Types.{
  MotionState, stopping, paused, executing, wait_consenso, homing_approach_fast, homing_backoff,
  homing_approach_fine, ◌is◌, Axis, Context, no_axis, is_driving,
}
use bisso_e350_controller.Motion.Fsm.{transition_to}
use bisso_e350_controller.Motion.Handlers.{Inputs, update, run_handler}
use bisso_e350_controller.Motion.Control.{
  stop_target, Motion, axis_at, blank_axis, on_axis, transition_axis, motion_stop, motion_pause,
  motion_resume, start_axis,
}

abbrev pub IsHoming : MotionState → Type 0
IsHoming s = (s ≡ homing_approach_fast) ⊎ (s ≡ homing_backoff) ⊎ (s ≡ homing_approach_fine)

abbrev pub NotHoming : MotionState → Type 0
NotHoming s = (s ≢ homing_approach_fast) × (s ≢ homing_backoff) × (s ≢ homing_approach_fine)

-- The active axis is one of the axes.
abbrev pub HasActive : Motion → Type 0
HasActive m = (m.shared.active_axis < length m.axes) × (m.shared.active_axis ≢ no_axis)

-- The axis behind a change of `axes[i]` is the changed one.
axis_at-on_axis :
    (i : ℕ) (f : Context → Context) (m : Motion)
    → i < length m.axes
    → axis_at i (on_axis i f m) ≡ (f (record { axis = axis_at i m; shared = m.shared })).axis
axis_at-on_axis i f m h = get_or-set_self m.axes i _ blank_axis h

abbrev pub context_at : ℕ → Motion → Context
context_at i m = record { axis = axis_at i m; shared = m.shared }

is_active : (m : Motion) → HasActive m → (m.shared.active_axis == no_axis) ≡ false
is_active m h = ground arith

-- The active axis behind a stop command that got the mutex.
stopped_axis :
    (now : ℕ) (m : Motion)
    → HasActive m
    → axis_at m.shared.active_axis (motion_stop true now m).0
      ≡ (transition_to now stopping (stop_target (context_at m.shared.active_axis m))).0.axis
unfolding motion_stop transition_axis
stopped_axis now m h =
    let i = m.shared.active_axis in
    simp (is_active m h) (
      axis_at-on_axis i (λ c. (transition_to now stopping c).0) (on_axis i stop_target m)
        (rw (length-set m.axes i (stop_target (context_at i m)).axis) h.0)
      ∙ ap
          (λ (a : Axis).
            (transition_to now stopping (record { axis = a; shared = m.shared })).0.axis)
          (axis_at-on_axis i stop_target m h.0))

stop_refused :
    (now : ℕ) (c : Context)
    → IsHoming c.axis.state
    → (transition_to now stopping (stop_target c)).0.axis ≡ (stop_target c).axis
unfolding transition_to
stop_refused now c h = ground arith

stop_accepted :
    (now : ℕ) (c : Context)
    → NotHoming c.axis.state
    → (transition_to now stopping (stop_target c)).0.axis.state ≡ stopping
unfolding transition_to
stop_accepted now c h = ground arith

-- When the active axis is in none of the three moving states of the homing sequence, a stop command
-- that gets the mutex reports success, leaves nothing driving, and takes the axis to `stopping`.
pub motion_stop_lem :
    (now : ℕ) (m : Motion)
    → HasActive m
    → NotHoming (axis_at m.shared.active_axis m).state
    → let (m', done) = motion_stop true now m in
      (done ≡ true)
      × (is_driving m'.shared.outputs ≡ false)
      × ((axis_at m.shared.active_axis m').state ≡ stopping)
unfolding motion_stop
motion_stop_lem now m h n = (
  refl,
  refl,
  rw (stopped_axis now m h) (stop_accepted now (context_at m.shared.active_axis m) n),
)

-- In these three states the stop command reports success too and leaves nothing driving, but the
-- state machine refuses the transition: the axis stays in its homing state with its entry time,
-- enabled as before.
pub motion_stop_homing :
    (now : ℕ) (m : Motion)
    → HasActive m
    → IsHoming (axis_at m.shared.active_axis m).state
    → let (m', done) = motion_stop true now m in
      let before = axis_at m.shared.active_axis m in
      let after = axis_at m.shared.active_axis m' in
      (done ≡ true)
      × (is_driving m'.shared.outputs ≡ false)
      × (after.state ≡ before.state)
      × (after.state_entry_ms ≡ before.state_entry_ms)
      × (after.enabled ≡ before.enabled)
unfolding motion_stop
motion_stop_homing now m h n =
    let same = stopped_axis now m h ∙ stop_refused now (context_at m.shared.active_axis m) n in
    (
      refl,
      refl,
      ap (λ (a : Axis). a.state) same,
      ap (λ (a : Axis). a.state_entry_ms) same,
      ap (λ (a : Axis). a.enabled) same,
    )

backoff_drives :
    (i : Inputs) (c : Context)
    → c.axis.enabled ≡ true
    → c.axis.state ≡ homing_backoff
    → i.switch_hit ≡ false
    → 1000 < elapsed i.now c.axis.state_entry_ms
    → is_driving (update i c).shared.outputs ≡ true
unfolding update run_handler
backoff_drives i c e s h t = ground arith

-- A stop command does not end a homing run: when it gets the mutex while the active axis, which is
-- enabled, backs off, then an update that finds the switch open and more than 1000 ms gone since
-- the backoff began drives the axis again.
pub homing_resumes_after_stop :
    (now : ℕ) (i : Inputs) (m : Motion)
    → HasActive m
    → let before = axis_at m.shared.active_axis m in
      before.enabled ≡ true
      → before.state ≡ homing_backoff
      → i.switch_hit ≡ false
      → 1000 < elapsed i.now before.state_entry_ms
      → is_driving
          (update i (context_at m.shared.active_axis (motion_stop true now m).0)).shared.outputs
        ≡ true
homing_resumes_after_stop now i m h e s o t =
    let kept = motion_stop_homing now m h (inr (inl s)) in
    backoff_drives i (context_at m.shared.active_axis (motion_stop true now m).0) (kept.4 ∙ e)
      (kept.2 ∙ s) o (rw kept.3 t)

to_paused :
    (now : ℕ) (c : Context)
    → (c.axis.state is executing || c.axis.state is wait_consenso) ≡ true
    → (transition_to now paused c).0.axis.state ≡ paused
unfolding transition_to
to_paused now c t = ground arith

to_waiting :
    (now : ℕ) (c : Context)
    → (c.axis.state is paused) ≡ true
    → (transition_to now wait_consenso c).0.axis.state ≡ wait_consenso
unfolding transition_to
to_waiting now c t = ground arith

pause_state :
    (now : ℕ) (m : Motion)
    → HasActive m
    → m.global_enabled ≡ true
    → let i = m.shared.active_axis in
      let before = (axis_at i m).state in
      (axis_at i (motion_pause true now m).0).state
      ≡ (if before is executing || before is wait_consenso then paused else before)
unfolding motion_pause transition_axis
pause_state now m h e =
    let i = m.shared.active_axis in
    let s = (axis_at i m).state in
    elim (Bool-cases (s is executing || s is wait_consenso)) [
      | inl t ↦
          simp (e, is_active m h, t)
            (ap (λ (a : Axis). a.state)
                (axis_at-on_axis i (λ c. (transition_to now paused c).0) m h.0)
              ∙ to_paused now (context_at i m) t)
      | inr f ↦ simp (e, is_active m h, f) refl
    ]

resume_state :
    (now profile : ℕ) (m : Motion)
    → HasActive m
    → m.global_enabled ≡ true
    → let i = m.shared.active_axis in
      let before = (axis_at i m).state in
      (axis_at i (motion_resume true now profile m).0).state
      ≡ (if before is paused then wait_consenso else before)
unfolding motion_resume transition_axis start_axis
resume_state now profile m h e =
    let i = m.shared.active_axis in
    let s = (axis_at i m).state in
    elim (Bool-cases (s is paused)) [
      | inl t ↦
          simp (e, is_active m h, t)
            (ap (λ (a : Axis). a.state)
                (axis_at-on_axis i (λ c. (transition_to now wait_consenso c).0) m h.0)
              ∙ to_waiting now (context_at i m) t)
      | inr f ↦ simp (e, is_active m h, f) refl
    ]

-- With motion enabled, an axis active and the mutex granted, a pause takes the active axis to
-- `paused` exactly from `executing` and `wait_consenso`, and a resume takes it exactly from
-- `paused` back to waiting for the consensus of the PLC; in every other state they leave its state
-- alone.
pub pause_resume :
    (now profile : ℕ) (m : Motion)
    → HasActive m
    → m.global_enabled ≡ true
    → let i = m.shared.active_axis in
      let before = (axis_at i m).state in
      let paused_m = (motion_pause true now m).0 in
      let resumed_m = (motion_resume true now profile m).0 in
      ((axis_at i paused_m).state
        ≡ (if before is executing || before is wait_consenso then paused else before))
      × ((axis_at i resumed_m).state ≡ (if before is paused then wait_consenso else before))
pause_resume now profile m h e = (pause_state now m h e, resume_state now profile m h e)
