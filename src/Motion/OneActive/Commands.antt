-- ===== src/Motion/OneActive/Commands.antt =====
-- Homing, stop, pause, resume, dwell and the wait for a pin (src/motion_control.cpp) keep the other
-- axes at rest.
use bisso_e350_controller.Base.{
  branch, ◌*◌, ℕ, ◌+◌, ◌≡◌, refl, inl, Bool, true, false, not, ◌&&◌, ◌==◌, arith, set, length-set,
  ltb, u32,
}
use bisso_e350_controller.Base.Int.{ltb_ℤ}
use bisso_e350_controller.Motion.Types.{
  MotionState, idle, wait_consenso, stopping, paused, homing_approach_fast, dwell, wait_pin, ◌is◌,
  Axis, Context, clear_all, no_axis, motion_axes,
}
use bisso_e350_controller.Motion.Handlers.{Inputs, update}
use bisso_e350_controller.Motion.Control.{
  stop_target, set_dwell, set_pin, Motion, axis_at, on_axis, set_active, transition_axis,
  start_axis, motion_home, motion_stop, motion_pause, motion_resume, motion_dwell, motion_wait_pin,
  update_active,
}
use bisso_e350_controller.Motion.OneActive.{
  OneActive, RestBut-set, on_active_keeps, active_context, update-Keeps,
}
use bisso_e350_controller.Motion.OneActive.Guards.{
  Good, all_rest, active_in_range, put-OneActive, set_active-OneActive, start-OneActive, test_and,
  test_eq, test_lt, test_ne, transition-OneActive,
}

pub home-OneActive :
    (g : Bool) (now profile axis : ℕ) (m : Motion)
    → OneActive m
    → Good (motion_home g now profile axis m)
unfolding motion_home
home-OneActive g now profile axis m h =
    branch Good (not (ltb axis motion_axes)) _ _ (λ _. h)
      λ lt.
        branch Good (not g) _ _ (λ _. h)
          λ _.
            branch Good (not (m.shared.active_axis == no_axis)) _ _ (λ _. h)
              λ n. start-OneActive profile axis false _ (
                transition-OneActive now homing_approach_fast axis (set_active axis m) refl
                  (test_lt axis lt)
                  (set_active-OneActive m h (test_eq m.shared.active_axis n) axis
                    (test_lt axis lt)))

pub update-OneActive : (i : Inputs) (m : Motion) → OneActive m → OneActive (update_active i m)
unfolding update_active
update-OneActive i m h =
    branch OneActive (m.shared.active_axis == no_axis) _ _ (λ _. h)
      λ n.
        on_active_keeps (update i) m (update-Keeps i (active_context (update i) m)) h
          (active_in_range m h (ground arith))

pub stop-OneActive : (g : Bool) (now : ℕ) (m : Motion) → OneActive m → Good (motion_stop g now m)
unfolding motion_stop
stop-OneActive false now m h = h
stop-OneActive true now m h = put-OneActive clear_all _ (
    branch OneActive (m.shared.active_axis == no_axis) _ _ (λ _. h)
      λ n.
        transition-OneActive now stopping m.shared.active_axis _ refl
          (active_in_range m h (ground arith))
          (on_active_keeps stop_target m (inl refl) h (active_in_range m h (ground arith))))

pub pause-OneActive : (g : Bool) (now : ℕ) (m : Motion) → OneActive m → Good (motion_pause g now m)
unfolding motion_pause
pause-OneActive g now m h =
    branch Good (not m.global_enabled) _ _ (λ _. h)
      λ _.
        branch Good (not g) _ _ (λ _. h)
          λ _.
            branch Good _ _ _
              (λ t. put-OneActive clear_all _ (
                transition-OneActive now paused m.shared.active_axis m refl
                  (active_in_range m h (test_ne m.shared.active_axis _ t)) h))
              (λ _. h)

pub resume-OneActive :
    (g : Bool) (now profile : ℕ) (m : Motion) → OneActive m → Good (motion_resume g now profile m)
unfolding motion_resume
resume-OneActive g now profile m h =
    branch Good (not m.global_enabled) _ _ (λ _. h)
      λ _.
        branch Good (not g) _ _ (λ _. h)
          λ _.
            branch Good (not (m.shared.active_axis == no_axis) && active.state is paused)
              (
                start_axis profile m.shared.active_axis
                    (ltb_ℤ active.position active.target_position)
                    (transition_axis now wait_consenso m.shared.active_axis m),
                true,
              )
              (m, true)
              (λ t.
                start-OneActive profile m.shared.active_axis
                  (ltb_ℤ active.position active.target_position) _
                  (transition-OneActive now wait_consenso m.shared.active_axis m refl
                    (active_in_range m h (test_ne m.shared.active_axis (active.state is paused) t))
                    h))
              (λ _. h)
  where
    active : Axis
    active = axis_at m.shared.active_axis m

-- Axis 0 set up while no axis is active, taken to a state, and then made the active one.
borrow-OneActive :
    (now : ℕ) (s : MotionState) (f : Context → Context) (m : Motion)
    → (f (record { axis = axis_at 0 m; shared = m.shared })).shared ≡ m.shared
    → OneActive m
    → m.shared.active_axis ≡ no_axis
    → OneActive (set_active 0 (transition_axis now s 0 (on_axis 0 f m)))
unfolding transition_axis
borrow-OneActive now s f m k h n = record {
  four = rw (length-set (set m.axes 0 _) 0 _) (rw (length-set m.axes 0 _) h.four);
  in_range = inl (omega arith);
  others_rest =
      RestBut-set 0 0 0 (set m.axes 0 _) _ (omega arith)
        (RestBut-set 0 0 0 m.axes _ (omega arith) (all_rest m h n 0));
}

pub dwell-OneActive :
    (g : Bool) (now later ms : ℕ) (m : Motion) → OneActive m → Good (motion_dwell g now later ms m)
unfolding motion_dwell
dwell-OneActive g now later ms m h =
    branch Good (not m.global_enabled) _ _ (λ _. h)
      λ _.
        branch Good (not g) _ _ (λ _. h)
          λ _.
            branch Good (m.shared.active_axis == no_axis && (axis_at 0 m).state is idle)
              (
                set_active 0
                    (transition_axis later dwell 0 (on_axis 0 (set_dwell (u32 (now + ms))) m)),
                true,
              )
              (m, false)
              (λ t.
                borrow-OneActive later dwell (set_dwell (u32 (now + ms))) m refl h
                  (test_and m.shared.active_axis ((axis_at 0 m).state is idle) t))
              (λ _. h)

pub pin-OneActive :
    (g : Bool) (now id kind level sec : ℕ) (m : Motion)
    → OneActive m
    → Good (motion_wait_pin g now id kind level sec m)
unfolding motion_wait_pin
pin-OneActive g now id kind level sec m h =
    branch Good (not m.global_enabled) _ _ (λ _. h)
      λ _.
        branch Good (not g) _ _ (λ _. h)
          λ _.
            branch Good (m.shared.active_axis == no_axis && (axis_at 0 m).state is idle)
              (set_active 0 (transition_axis now wait_pin 0 (on_axis 0 arm m)), true) (m, false)
              (λ t.
                borrow-OneActive now wait_pin arm m refl h
                  (test_and m.shared.active_axis ((axis_at 0 m).state is idle) t))
              (λ _. h)
  where
    arm : Context → Context
    arm = set_pin id kind level (u32 (sec * 1000))
