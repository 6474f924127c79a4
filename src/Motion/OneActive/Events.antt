-- ===== src/Motion/OneActive/Events.antt =====
-- What happens to the motion engine of src/motion_control.cpp, in any order: commands of other tasks,
-- updates of the motion task, and the settings of positions and limits.
use bisso_e350_controller.Base.{
  branches, ◌∙◌, ℕ, zero, suc, ◌≡◌, refl, Bool, not, List, [], ◌∷◌, get_or, set, length-set, ltb,
}
use bisso_e350_controller.Base.Int.{ℤ}
use bisso_e350_controller.Motion.Types.{Axis, Context, idle, ◌is◌, motion_axes}
use bisso_e350_controller.Motion.Control.{Motion, axis_at, blank_axis, on_axis}
use bisso_e350_controller.Motion.Limits.{
  motion_set_position, motion_set_soft_limits, motion_enable_soft_limits, with_limits,
  with_soft_limits,
}
use bisso_e350_controller.Motion.Planner.{System}
use bisso_e350_controller.Motion.Update.{Backoff, Tick, motion_update, on_motion, emergency_stop}
use bisso_e350_controller.Motion.OneActive.{RestBut, OneActive}
use bisso_e350_controller.Motion.OneActive.Runs.{Call, Allowed, perform, perform-OneActive}
use bisso_e350_controller.Motion.OneActive.Stops.{stop_all-OneActive}
use bisso_e350_controller.MotionBuffer.Ring.{Lock}
use bisso_e350_controller.Motion.OneActive.Loop.{tick-OneActive}
use bisso_e350_controller.Motion.OneActive.Positions.{set_position-OneActive}

-- An emergency stop of another task is `halt`, which clears the motion buffer too; as a command it is
-- one that does not get the mutex of the buffer.
pub data Event : Type 0 where
  halt : ℕ → Lock → Event
  command : Call → Event
  tick : Tick → Event
  set_position : Bool → (ℕ → ℤ) → Event
  set_limits : ℕ → ℤ → ℤ → Event
  enable_limits : ℕ → Bool → Event

abbrev pub AllowedEvent : Event → Motion → Type 0
AllowedEvent (command c) m = Allowed c m
AllowedEvent _ m = Unit {0}

-- An axis that keeps its state.
RestBut-same :
    (active i k : ℕ) (axes : List Axis) (a : Axis)
    → a.state ≡ (get_or axes k blank_axis).state
    → RestBut active i axes
    → RestBut active i (set axes k a)
RestBut-same active i k [] a e r = tt
RestBut-same active i zero (x ∷ axes) a e r = (rw e r.0, r.1)
RestBut-same active i (suc k) (x ∷ axes) a e r = (r.0, RestBut-same active (suc i) k axes a e r.1)

-- A setting of the limits of an axis.
setting-OneActive :
    (f : Context → Context) (axis : ℕ) (m : Motion)
    → (f (record { axis = axis_at axis m; shared = m.shared })).axis.state ≡ (axis_at axis m).state
    → (f (record { axis = axis_at axis m; shared = m.shared })).shared.active_axis
      ≡ m.shared.active_axis
    → OneActive m
    → OneActive (on_axis axis f m)
setting-OneActive f axis m e n h = record {
  four = length-set m.axes axis _ ∙ h.four;
  in_range = rw n h.in_range;
  others_rest = rw n (RestBut-same m.shared.active_axis 0 axis m.axes _ e h.others_rest);
}

module _ {F : Type 0} (profile_of : ℕ → F → ℕ) (recount : ℕ → ℤ → ℤ) where
  unfoldable pub happen : Event → Backoff × System F → Backoff × System F
  happen (halt now clear_lock) (b, s) = (b, emergency_stop now clear_lock s)
  happen (command c) (b, s) = (b, on_motion (perform c) s)
  happen (tick t) (b, s) = motion_update profile_of recount t (b, s)
  happen (set_position got_mutex new_pos) (b, s) =
      (b, on_motion (λ m. (motion_set_position got_mutex new_pos m).0) s)
  happen (set_limits axis min_pos max_pos) (b, s) =
      (b, on_motion (motion_set_soft_limits axis min_pos max_pos) s)
  happen (enable_limits axis enable) (b, s) =
      (b, on_motion (motion_enable_soft_limits axis enable) s)

  unfoldable pub happen_all : List Event → Backoff × System F → Backoff × System F
  happen_all [] r = r
  happen_all (e ∷ events) r = happen_all events (happen e r)

  abbrev pub AllAllowed : List Event → Backoff × System F → Type 0
  AllAllowed [] r = Unit {0}
  AllAllowed (e ∷ events) r = AllowedEvent e r.1.motion × AllAllowed events (happen e r)

  event-OneActive :
      (e : Event) (r : Backoff × System F)
      → AllowedEvent e r.1.motion
      → OneActive r.1.motion
      → OneActive (happen e r).1.motion
  unfolding happen emergency_stop motion_set_soft_limits motion_enable_soft_limits
  event-OneActive (halt now clear_lock) (b, s) a h = stop_all-OneActive now s.motion h
  event-OneActive (command c) (b, s) a h = perform-OneActive c s.motion a h
  event-OneActive (tick t) (b, s) a h = tick-OneActive profile_of recount t b s h
  event-OneActive (set_position got_mutex new_pos) (b, s) a h =
      set_position-OneActive got_mutex new_pos s.motion h
  event-OneActive (set_limits axis min_pos max_pos) (b, s) a h =
      branches OneActive (ltb axis motion_axes) _ _
        (setting-OneActive (with_limits min_pos max_pos) axis s.motion refl refl h) h
  event-OneActive (enable_limits axis enable) (b, s) a h =
      branches OneActive (not (ltb axis motion_axes)) _ _ h (
        branches OneActive (not ((axis_at axis s.motion).state is idle)) _ _ h (
          branches OneActive s.motion.global_enabled _ _ h
            (setting-OneActive (with_soft_limits enable) axis s.motion refl refl h)))

  -- Whatever happens, and in whatever order, at most one axis is in motion, when it was so before:
  -- there are 4 axes, the active axis is one of them or none, and each other axis is idle or in
  -- `error`. Commands of other tasks come between the updates of the motion task, which start and
  -- blend in the moves of the motion buffer, and so do settings of positions and limits. The
  -- commands keep two conditions: a move names at most 4 positions, and with motion disabled the
  -- emergency stop is cleared only while no axis is active.
  pub happen_all-OneActive :
      (events : List Event) (r : Backoff × System F)
      → AllAllowed events r
      → OneActive r.1.motion
      → OneActive (happen_all events r).1.motion
  unfolding happen_all
  happen_all-OneActive [] r a h = h
  happen_all-OneActive (e ∷ events) r a h =
      happen_all-OneActive events (happen e r) a.1 (event-OneActive e r a.0 h)
