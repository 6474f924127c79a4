-- ===== src/Motion/OneActive/Guards.antt =====
-- The tests by which the commands of src/motion_control.cpp find no axis active, and what an output, a
-- start and a transition keep.
use bisso_e350_controller.Base.{
  ℕ, ◌<◌, ◌≡◌, ◌≢◌, inl, Bool, true, false, not, ◌&&◌, ◌==◌, arith, ltb,
}
use mathlib.Core.Path.{subst}
use bisso_e350_controller.Motion.Types.{MotionState, Output, no_axis, motion_axes}
use bisso_e350_controller.Motion.Fsm.{transition_to}
use bisso_e350_controller.Motion.Control.{
  Motion, on_axis, put, set_active, transition_axis, start_axis,
}
use bisso_e350_controller.Motion.OneActive.{
  RestBut, OneActive, RestBut-none, on_active_keeps, active_context, transition-Keeps,
}

pub put-OneActive : (o : Output) (m : Motion) → OneActive m → OneActive (put o m)
put-OneActive o m h = record { four = h.four; in_range = h.in_range; others_rest = h.others_rest }

pub start-OneActive :
    (profile i : ℕ) (d : Bool) (m : Motion) → OneActive m → OneActive (start_axis profile i d m)
unfolding start_axis
start-OneActive profile i d m h = record {
  four = h.four;
  in_range = h.in_range;
  others_rest = h.others_rest;
}

-- With no axis active, all are at rest.
module _ (m : Motion) (h : OneActive m) (n : m.shared.active_axis ≡ no_axis) where
  pub all_rest : (i : ℕ) → RestBut i 0 m.axes
  all_rest i = RestBut-none i m.shared.active_axis 0 m.axes (omega (arith, h.four)) h.others_rest

  pub set_active-OneActive : (i : ℕ) → i < motion_axes → OneActive (set_active i m)
  set_active-OneActive i lt = record { four = h.four; in_range = inl lt; others_rest = all_rest i }

pub active_in_range :
    (m : Motion) → OneActive m → m.shared.active_axis ≢ no_axis → m.shared.active_axis < motion_axes
active_in_range m h n = ground (arith, h.in_range)

pub transition-OneActive :
    (now : ℕ) (s : MotionState) (i : ℕ) (m : Motion)
    → m.shared.active_axis ≡ i
    → i < motion_axes
    → OneActive m
    → OneActive (transition_axis now s i m)
unfolding transition_axis
transition-OneActive now s i m e lt h =
    subst (λ j. OneActive (on_axis j (λ c. (transition_to now s c).0) m)) e
      (on_active_keeps (λ c. (transition_to now s c).0) m
        (transition-Keeps now s (active_context (λ c. (transition_to now s c).0) m)) h (rw e lt))

pub test_lt : (a : ℕ) → not (ltb a motion_axes) ≡ false → a < motion_axes
test_lt a h = ground arith

pub test_eq : (a : ℕ) → not (a == no_axis) ≡ false → a ≡ no_axis
test_eq a h = ground arith

pub test_ne : (a : ℕ) (b : Bool) → (not (a == no_axis) && b) ≡ true → a ≢ no_axis
test_ne a b h = ground arith

pub test_and : (a : ℕ) (b : Bool) → (a == no_axis && b) ≡ true → a ≡ no_axis
test_and a b h = ground arith

abbrev pub Good : Motion × Bool → Type 0
Good r = OneActive r.0
