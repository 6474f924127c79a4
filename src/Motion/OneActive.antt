-- ===== src/Motion/OneActive.antt =====
-- At most one axis is in motion: every axis but the active one is idle or in `error`.
pub mod Guards
pub mod Commands
pub mod Moves
pub mod Stops
pub mod Runs
pub mod Positions
pub mod Loop
pub mod Events
use bisso_e350_controller.Base.{
  ◌*◌, ap, ◌∙◌, ℕ, zero, suc, ◌+◌, ◌<◌, ◌≤◌, ◌≡◌, ◌≢◌, refl, ◌⊎◌, inl, inr, Bool, true, false,
  Bool-cases, not, ◌&&◌, ◌||◌, ◌==◌, if◌then◌else◌, Option, none, some, List, [], ◌∷◌, arith,
  get_or, set, length, length-set, ltb, u32,
}
use mathlib.Core.Path.{subst}
use bisso_e350_controller.Base.Int.{ℤ, pos, ltb_ℤ}
use bisso_e350_controller.Motion.Types.{
  MotionState, idle, wait_consenso, executing, stopping, paused, error, homing_approach_fast,
  homing_backoff, homing_approach_fine, homing_settle, dwell, wait_pin, ◌is◌, Axis, Context, Shared,
  Output, clear_all, no_axis, motion_axes, distance,
}
use bisso_e350_controller.Motion.Fsm.{transition_to, enter}
use bisso_e350_controller.Motion.Handlers.{Inputs, update, run_handler}
use bisso_e350_controller.Motion.EmergencyStop.{emergency_stop_halts}
use bisso_e350_controller.Motion.Control.{
  beyond_limits, stop_target, set_dwell, set_pin, set_target, Motion, axis_at, blank_axis, on_axis,
  put, set_active, transition_axis, start_axis, motion_home, select_target, aim_axis, try_move,
  move_begin, move_end, motion_move_absolute, motion_stop, motion_pause, motion_resume,
  motion_dwell, motion_wait_pin, transition_all, motion_emergency_stop, motion_clear_emergency_stop,
  update_active,
}

abbrev pub AtRest : MotionState → Type 0
AtRest s = (s ≡ idle) ⊎ (s ≡ error)

-- Of the axes from index `i` on, all but that of index `active` are at rest.
abbrev pub RestBut : ℕ → ℕ → List Axis → Type 0
RestBut active i [] = Unit {0}
RestBut active i (a ∷ axes) = ((i ≡ active) ⊎ AtRest a.state) × RestBut active (suc i) axes

pub record OneActive (m : Motion) : Type 0 where
  pub four : length m.axes ≡ motion_axes
  pub in_range : (m.shared.active_axis < motion_axes) ⊎ (m.shared.active_axis ≡ no_axis)
  pub others_rest : RestBut m.shared.active_axis 0 m.axes

-- The active axis may become anything.
pub RestBut-set :
    (active i k : ℕ) (axes : List Axis) (a : Axis)
    → i + k ≡ active
    → RestBut active i axes
    → RestBut active i (set axes k a)
RestBut-set active i k [] a e r = tt
RestBut-set active i zero (x ∷ axes) a e r = (inl (omega arith), r.1)
RestBut-set active i (suc k) (x ∷ axes) a e r =
    (r.0, RestBut-set active (suc i) k axes a (omega arith) r.1)

-- With every axis at rest, any of them may be made the active one, and set.
pub RestBut-none :
    (other active i : ℕ) (axes : List Axis)
    → i + length axes ≤ active
    → RestBut active i axes
    → RestBut other i axes
RestBut-none other active i [] h r = tt
RestBut-none other active i (x ∷ axes) h (inl e, r) = absurd (omega arith)
RestBut-none other active i (x ∷ axes) h (inr a, r) =
    (inr a, RestBut-none other active (suc i) axes (omega arith) r)

RestBut-past :
    (other active i : ℕ) (axes : List Axis)
    → active < i
    → RestBut active i axes
    → RestBut other i axes
RestBut-past other active i [] h r = tt
RestBut-past other active i (x ∷ axes) h (inl e, r) = absurd (omega arith)
RestBut-past other active i (x ∷ axes) h (inr a, r) =
    (inr a, RestBut-past other active (suc i) axes (omega arith) r)

-- The active axis may come to rest, and then none is active.
pub RestBut-rest :
    (other active i k : ℕ) (axes : List Axis) (a : Axis)
    → i + k ≡ active
    → AtRest a.state
    → RestBut active i axes
    → RestBut other i (set axes k a)
RestBut-rest other active i k [] a e t r = tt
RestBut-rest other active i zero (x ∷ axes) a e t r =
    (inr t, RestBut-past other active (suc i) axes (omega arith) r.1)
RestBut-rest other active i (suc k) (x ∷ axes) a e t (inl p, r) = absurd (omega arith)
RestBut-rest other active i (suc k) (x ∷ axes) a e t (inr p, r) =
    (inr p, RestBut-rest other active (suc i) k axes a (omega arith) t r)

-- A change of the active axis that leaves it active, or brings it to rest with no axis active.
abbrev pub Keeps : (Context → Context) → Context → Type 0
Keeps f c =
    ((f c).shared.active_axis ≡ c.shared.active_axis)
    ⊎ (((f c).shared.active_axis ≡ no_axis) × AtRest (f c).axis.state)

module _ (f : Context → Context) (m : Motion) where
  abbrev pub active_context : Context
  active_context = record { axis = axis_at m.shared.active_axis m; shared = m.shared }

  pub on_active_keeps :
      (((f active_context).shared.active_axis ≡ m.shared.active_axis)
        ⊎ (((f active_context).shared.active_axis ≡ no_axis)
            × AtRest (f active_context).axis.state))
      → OneActive m
      → m.shared.active_axis < motion_axes
      → OneActive (on_axis m.shared.active_axis f m)
  on_active_keeps (inl e) o lt = record {
    four = rw (length-set m.axes m.shared.active_axis (f active_context).axis) o.four;
    in_range = rw e (inl lt);
    others_rest = rw e (
        RestBut-set m.shared.active_axis 0 m.shared.active_axis m.axes _ (omega arith)
          o.others_rest);
  }
  on_active_keeps (inr (e, r)) o lt = record {
    four = rw (length-set m.axes m.shared.active_axis (f active_context).axis) o.four;
    in_range = inr e;
    others_rest =
        RestBut-rest _ m.shared.active_axis 0 m.shared.active_axis m.axes _ (omega arith) r
          o.others_rest;
  }

-- A transition leaves the active axis alone, but for `idle`, which clears it.
pub transition-Keeps :
    (now : ℕ) (s : MotionState) (c : Context) → Keeps (λ c. (transition_to now s c).0) c
unfolding transition_to
transition-Keeps now idle c = ground arith
transition-Keeps now _ c = ground arith

run_handler-Keeps : (s : MotionState) (i : Inputs) (c : Context) → Keeps (run_handler s i) c
unfolding run_handler
run_handler-Keeps stopping i c = ground arith
run_handler-Keeps _ i c = ground arith

pub update-Keeps : (i : Inputs) (c : Context) → Keeps (update i) c
unfolding update
update-Keeps i c = ground (arith, run_handler-Keeps c.axis.state i c)
