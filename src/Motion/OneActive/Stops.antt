-- ===== src/Motion/OneActive/Stops.antt =====
-- The emergency stop of src/motion_control.cpp and its clearing leave the axes at rest.
use bisso_e350_controller.Base.{
  branch, ap, ◌∙◌, ℕ, suc, ◌+◌, ◌≤◌, ◌≡◌, refl, inl, inr, Bool, true, false, if◌then◌else◌, List,
  [], ◌∷◌, arith, length,
}
use bisso_e350_controller.Motion.Types.{
  MotionState, idle, error, ◌is◌, Axis, Context, Shared, no_axis,
}
use bisso_e350_controller.Motion.Fsm.{transition_to}
use bisso_e350_controller.Motion.EmergencyStop.{emergency_stop_halts}
use bisso_e350_controller.Motion.Control.{
  Motion, transition_all, motion_emergency_stop, motion_clear_emergency_stop,
}
use bisso_e350_controller.Motion.OneActive.{AtRest, RestBut, OneActive}
use bisso_e350_controller.Motion.OneActive.Guards.{Good, all_rest}

length-transition_all :
    (now : ℕ) (t : MotionState) (test : Axis → Bool) (axes : List Axis) (s : Shared)
    → length (transition_all now t test axes s).0 ≡ length axes
unfolding transition_all
length-transition_all now t test [] s = refl
length-transition_all now t test (x ∷ axes) s = ap suc (length-transition_all now t test axes _)

reaches_error : (now : ℕ) (c : Context) → (transition_to now error c).0.axis.state ≡ error
unfolding transition_to
reaches_error now c = ground arith

-- All of the axes that are taken to `error` or `idle` are at rest.
error_rests :
    (now other i : ℕ) (axes : List Axis) (s : Shared)
    → RestBut other i (transition_all now error (λ a. true) axes s).0
unfolding transition_all
error_rests now other i [] s = tt
error_rests now other i (x ∷ axes) s = (
  inr (inr (reaches_error now (record { axis = x; shared = s }))),
  error_rests now other (suc i) axes _,
)

pub stop_all-OneActive :
    (now : ℕ) (m : Motion) → OneActive m → OneActive (motion_emergency_stop now m)
unfolding motion_emergency_stop
stop_all-OneActive now m h = record {
  four = length-transition_all now error (λ a. true) m.axes _ ∙ h.four;
  in_range = inr (emergency_stop_halts now m).1;
  others_rest = error_rests now _ 0 m.axes _;
}

clear_one :
    (now : ℕ) (c : Context)
    → AtRest c.axis.state
    → c.shared.active_axis ≡ no_axis
    → let c' = if c.axis.state is error then (transition_to now idle c).0 else c in
      AtRest c'.axis.state × (c'.shared.active_axis ≡ no_axis)
unfolding transition_to
clear_one now c a n = ground arith

clear_rests :
    (now i : ℕ) (axes : List Axis) (s : Shared)
    → RestBut no_axis i axes
    → i + length axes ≤ no_axis
    → s.active_axis ≡ no_axis
    → let (axes', s') = transition_all now idle (λ a. a.state is error) axes s in
      RestBut no_axis i axes' × (s'.active_axis ≡ no_axis)
unfolding transition_all
clear_rests now i [] s r l n = (tt, n)
clear_rests now i (x ∷ axes) s (inl e, r) l n = absurd (omega arith)
clear_rests now i (x ∷ axes) s (inr a, r) l n =
    let (first, kept) = clear_one now (record { axis = x; shared = s }) a n in
    let (others, still) = clear_rests now (suc i) axes _ r (omega arith) kept in
    ((inr first, others), still)

pub clear-OneActive :
    (alarmed : Bool) (now : ℕ) (m : Motion)
    → (m.global_enabled ≡ false → m.shared.active_axis ≡ no_axis)
    → OneActive m
    → Good (motion_clear_emergency_stop alarmed now m)
unfolding motion_clear_emergency_stop
clear-OneActive alarmed now m n h =
    branch Good m.global_enabled _ _ (λ _. h)
      λ d.
        branch Good alarmed _ _ (λ _. h)
          λ _.
            let (r, a) =
              clear_rests now 0 m.axes (record m.shared { active_axis = no_axis })
                (all_rest m h (n d) no_axis) (omega (arith, h.four)) refl in
            record {
              four = length-transition_all now idle (λ a. a.state is error) m.axes _ ∙ h.four;
              in_range = inr a;
              others_rest = rw a r;
            }
