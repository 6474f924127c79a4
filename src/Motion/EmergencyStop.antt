-- ===== src/Motion/EmergencyStop.antt =====
-- What an emergency stop guarantees, and the two ways round it.
use bisso_e350_controller.Base.{
  ℕ, ◌<◌, ◌≡◌, ◌≢◌, refl, ◌⊎◌, inl, inr, Bool, true, false, not, ltb, ◌==◌, if◌then◌else◌, some,
  List, [], ◌∷◌, arith, All,
}
use bisso_e350_controller.Base.Int.{ℤ}
use bisso_e350_controller.Motion.Types.{
  idle, error, Axis, clear_all, Shared, Context, no_axis, motion_axes, is_driving, ◌is◌,
}
use bisso_e350_controller.Motion.Fsm.{transition_to}
use bisso_e350_controller.Motion.Control.{
  Motion, put, transition_axis, motion_home, move_begin, move_end, motion_move_absolute,
  motion_pause, motion_resume, motion_dwell, motion_wait_pin, transition_all, motion_emergency_stop,
  motion_clear_emergency_stop,
}

enters_error :
    (now : ℕ) (c : Context)
    → c.shared.active_axis ≡ no_axis
    → let c' = (transition_to now error c).0 in
      (c'.axis.state ≡ error)
      × (is_driving c'.shared.outputs ≡ false)
      × (c'.shared.active_axis ≡ no_axis)
unfolding transition_to
enters_error now c a = ground arith

to_error_halts :
    (now : ℕ) (axes : List Axis) (s : Shared)
    → is_driving s.outputs ≡ false
    → s.active_axis ≡ no_axis
    → let (axes', s') = transition_all now error (λ a. true) axes s in
      All (λ a. a.state ≡ error) axes'
      × (is_driving s'.outputs ≡ false)
      × (s'.active_axis ≡ no_axis)
unfolding transition_all
to_error_halts now [] s h a = (tt, h, a)
to_error_halts now (x ∷ axes) s h a =
    let c : Context = record { axis = x; shared = s } in
    let c' = (transition_to now error c).0 in
    let first = enters_error now c a in
    let (e, d, n) = to_error_halts now axes c'.shared first.1 first.2 in ((first.0, e), d, n)

-- After an emergency stop every axis is in `error`, none is active, motion is disabled, and the
-- outputs hold no movement command behind the last stop of all axes, whatever the axes did before.
pub emergency_stop_halts :
    (now : ℕ) (m : Motion)
    → let m' = motion_emergency_stop now m in
      All (λ a. a.state ≡ error) m'.axes
      × (m'.shared.active_axis ≡ no_axis)
      × (m'.global_enabled ≡ false)
      × (is_driving m'.shared.outputs ≡ false)
unfolding motion_emergency_stop
emergency_stop_halts now m =
    let halted = record (put clear_all m).shared { active_axis = no_axis } in
    let (e, d, n) = to_error_halts now m.axes halted refl refl in (e, n, refl, d)

-- While motion is disabled, a move, a pause, a resume, a dwell and a wait for a pin are refused and
-- change nothing.
pub disabled_refuses :
    (got_mutex : Bool) (now later profile k : ℕ) (predicted : ℤ) (requests : List (ℤ × ℤ))
    (m : Motion)
    → m.global_enabled ≡ false
    → (motion_move_absolute got_mutex now predicted profile requests m ≡ (m, false))
      × (motion_pause got_mutex now m ≡ (m, false))
      × (motion_resume got_mutex now profile m ≡ (m, false))
      × (motion_dwell got_mutex now later k m ≡ (m, false))
      × (motion_wait_pin got_mutex now k k k k m ≡ (m, false))
unfolding motion_move_absolute move_begin move_end motion_pause motion_resume motion_dwell
    motion_wait_pin
disabled_refuses got_mutex now later profile k predicted requests m h =
    (ground arith, ground arith, ground arith, ground arith, ground arith)

home_test :
    (axis : ℕ) (m : Motion)
    → axis < motion_axes
    → m.shared.active_axis ≡ no_axis
    → (not (ltb axis motion_axes) ≡ false) × (not (m.shared.active_axis == no_axis) ≡ false)
home_test axis m lt a = (ground arith, ground arith)

-- `motionHome` has no test of the emergency stop: with motion disabled and no axis active, homing
-- one of the 4 axes with the mutex granted succeeds and leaves the motor driving.
pub home_ignores_emergency_stop :
    (now profile axis : ℕ) (m : Motion)
    → m.global_enabled ≡ false
    → m.shared.active_axis ≡ no_axis
    → axis < motion_axes
    → let (m', done) = motion_home true now profile axis m in
      (done ≡ true) × (m'.global_enabled ≡ false) × (is_driving m'.shared.outputs ≡ true)
unfolding motion_home transition_axis
home_ignores_emergency_stop now profile axis m h a lt = ground (arith, home_test axis m lt a)

-- A move sends its outputs behind the release of the mutex: when an emergency stop falls between
-- the two parts of an accepted move, the move reports success and the axis is driven with motion
-- disabled.
pub move_overtakes_emergency_stop :
    (now stop_now profile axis : ℕ) (predicted : ℤ) (is_fwd : Bool) (requests : List (ℤ × ℤ))
    (m : Motion)
    → (move_begin true now predicted profile requests m).1 ≡ some (axis, is_fwd)
    → let begun = move_begin true now predicted profile requests m in
      let (m', done) = move_end profile begun.1 (motion_emergency_stop stop_now begun.0) in
      (done ≡ true) × (m'.global_enabled ≡ false) × (is_driving m'.shared.outputs ≡ true)
unfolding move_end motion_emergency_stop
move_overtakes_emergency_stop now stop_now profile axis predicted is_fwd requests m h =
    rw h (refl, refl, refl)

-- With motion enabled, clearing the emergency stop reports success and changes nothing: an axis
-- that a time limit took into `error` stays there, and stays the active one.
pub clear_enabled :
    (alarmed : Bool) (now : ℕ) (m : Motion)
    → m.global_enabled ≡ true
    → motion_clear_emergency_stop alarmed now m ≡ (m, true)
unfolding motion_clear_emergency_stop
clear_enabled alarmed now m h = ground arith

leaves_error :
    (now : ℕ) (c : Context)
    → (if c.axis.state is error then (transition_to now idle c).0 else c).axis.state ≢ error
unfolding transition_to
leaves_error now c = ground arith

errors_cleared :
    (now : ℕ) (axes : List Axis) (s : Shared)
    → All (λ a. a.state ≢ error) (transition_all now idle (λ a. a.state is error) axes s).0
unfolding transition_all
errors_cleared now [] s = tt
errors_cleared now (x ∷ axes) s =
    (leaves_error now (record { axis = x; shared = s }), errors_cleared now axes _)

-- With motion disabled, clearing the emergency stop is refused while an alarm is on, and motion
-- stays disabled; else it enables motion and leaves no axis in `error`.
pub clear_disabled :
    (alarmed : Bool) (now : ℕ) (m : Motion)
    → m.global_enabled ≡ false
    → let (m', done) = motion_clear_emergency_stop alarmed now m in
      (done ≡ not alarmed)
      × (m'.global_enabled ≡ not alarmed)
      × ((alarmed ≡ true) ⊎ All (λ a. a.state ≢ error) m'.axes)
unfolding motion_clear_emergency_stop
clear_disabled true now m h = (ground arith, ground arith, inl refl)
clear_disabled false now m h =
    (ground arith, ground arith, inr (simp h (errors_cleared now m.axes _)))
