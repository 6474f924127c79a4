-- ===== src/Motion/OneActive/Loop.antt =====
-- The update of the motion task, with the planner, in sequence with the commands of
-- src/motion_control.cpp.
use bisso_e350_controller.Base.{
  branch, branches, ltb, leb, elapsed, ℕ, ◌≡◌, ◌≢◌, refl, inl, Bool, false, not, ◌==◌,
  if◌then◌else◌, Option, none, some, arith,
}
use bisso_e350_controller.Base.Int.{ℤ, pos, ltb_ℤ}
use bisso_e350_controller.Motion.Types.{
  speed, fault, motion_timeout, motion_timeout_critical, Context, no_axis, distance,
}
use bisso_e350_controller.Motion.Control.{Motion, axis_at, on_axis, put}
use bisso_e350_controller.Motion.Planner.{
  new_profile, retarget, target_of, requests_of, speed_profile_1, speed_profile_2, System, Readings,
  switch_profile, apply_dynamic_approach, take_over, blend, check_look_ahead, refresh_profile,
  start_popped, check_buffer_drain, motion_start_internal_move,
}
use bisso_e350_controller.Motion.Planner
use bisso_e350_controller.Motion.SoftLimits.{positions_read}
use bisso_e350_controller.Motion.Update.{
  on_motion, Backoff, Tick, emergency_stop, skip_update, run_active, locked_update, motion_update,
}
use bisso_e350_controller.Motion.OneActive.{OneActive, on_active_keeps, active_context}
use bisso_e350_controller.Motion.OneActive.Guards.{put-OneActive, active_in_range}
use bisso_e350_controller.Motion.OneActive.Commands.{update-OneActive}
use bisso_e350_controller.Motion.OneActive.Moves.{move-OneActive}
use bisso_e350_controller.Motion.OneActive.Stops.{stop_all-OneActive}
use bisso_e350_controller.MotionBuffer.Ring.{MotionCmd, Lock, pop, peek, is_empty}
use bisso_e350_controller.Motion.OneActive.Positions.{read-OneActive}

-- A change of the active axis that leaves it active.
active-OneActive :
    (f : Context → Context) (m : Motion)
    → (f (active_context f m)).shared.active_axis ≡ m.shared.active_axis
    → m.shared.active_axis ≢ no_axis
    → OneActive m
    → OneActive (on_axis m.shared.active_axis f m)
active-OneActive f m e n h = on_active_keeps f m (inl e) h (active_in_range m h n)

switch-OneActive :
    (p : ℕ) (m : Motion)
    → m.shared.active_axis ≢ no_axis
    → OneActive m
    → OneActive (switch_profile p m) × ((switch_profile p m).shared.active_axis ≢ no_axis)
unfolding switch_profile
switch-OneActive p m n h =
    (active-OneActive (new_profile p) (put (speed p) m) refl n (put-OneActive (speed p) m h), n)

abbrev Active : Motion → Type 0
Active m = OneActive m × (m.shared.active_axis ≢ no_axis)

approach-Active :
    (r : Readings) (t : ℤ) (m : Motion) → Active m → Active (apply_dynamic_approach r t m)
unfolding apply_dynamic_approach
approach-Active r t m h =
    let slow = switch-OneActive speed_profile_1 m h.1 h.0 in
    let med = switch-OneActive speed_profile_2 m h.1 h.0 in
    branches Active (not (m.shared.active_axis == 0)) _ _ h (
      branches Active
        (ltb_ℤ (pos (distance (axis_at m.shared.active_axis m).target_position t)) r.slow_threshold)
        _ _ (branches Active _ _ _ slow h)
        (branches Active
          (ltb_ℤ (pos (distance (axis_at m.shared.active_axis m).target_position t))
            r.med_threshold)
          _ _ (branches Active _ _ _ med h) h))

module _ {F : Type 0} where
  take_over-Active :
      (r : Readings) (cmd : MotionCmd F) (s : System F)
      → Active s.motion
      → Active (take_over r cmd s).motion
  unfolding take_over
  take_over-Active r cmd s h = (
    active-OneActive (retarget (target_of s.motion.shared.active_axis cmd)) s.motion refl h.1 h.0,
    h.1,
  )

  blend-Active :
      (r : Readings) (q : Option (MotionCmd F)) (s : System F)
      → Active s.motion
      → Active (blend r q s).0.motion
  unfolding blend
  blend-Active r none s h = h
  blend-Active r (some cmd) s h =
      branches {A = System F × Bool} (λ x. Active x.0.motion) _ _ _ h
        (branches {A = System F × Bool} (λ x. Active x.0.motion) _ _ _ (take_over-Active r cmd s h)
          h)

  look_ahead-Active :
      (r : Readings) (s : System F) → Active s.motion → Active (check_look_ahead r s).0.motion
  unfolding check_look_ahead
  look_ahead-Active r s h =
      branches {A = System F × Bool} (λ x. Active x.0.motion) _ _ _ h
        (blend-Active r (peek r.peek_lock s.buffer) s h)

  stop-OneActive :
      (now : ℕ) (l : Lock) (s : System F)
      → OneActive s.motion
      → OneActive (emergency_stop now l s).motion
  unfolding emergency_stop
  stop-OneActive now l s h = stop_all-OneActive now s.motion h

  skip-OneActive :
      (t : Tick) (b : Backoff) (s : System F)
      → OneActive s.motion
      → OneActive (skip_update t (b, s)).1.motion
  unfolding skip_update emergency_stop
  skip-OneActive t b s h =
      let s' =
        branches {A = System F} (λ x. OneActive x.motion)
          (leb 5000 (elapsed t.now b.last_timeout_warning_ms))
          (on_motion (put (fault motion_timeout)) s) s
          (put-OneActive (fault motion_timeout) s.motion h) h in
      branches {A = Backoff × System F} (λ x. OneActive x.1.motion) _ _ _
        (stop_all-OneActive t.now _ (put-OneActive (fault motion_timeout_critical) _ s')) s'

  run-OneActive : (t : Tick) (s : System F) → OneActive s.motion → OneActive (run_active t s).motion
  unfolding run_active
  run-OneActive t s h = update-OneActive _ s.motion h

module _ {F : Type 0} (profile_of : ℕ → F → ℕ) (recount : ℕ → ℤ → ℤ) where
  start-OneActive :
      (r : Readings) (next : Option (MotionCmd F)) (s : System F)
      → OneActive s.motion
      → OneActive (start_popped profile_of recount r next s).0.motion
  unfolding start_popped motion_start_internal_move
  start-OneActive r none s h = h
  start-OneActive r (some cmd) s h =
      move-OneActive r.got_mutex r.now r.predicted _ (requests_of profile_of recount r cmd) s.motion
        (omega arith) h

  drain-OneActive :
      (r : Readings) (s : System F)
      → OneActive s.motion
      → OneActive (check_buffer_drain profile_of recount r s).0.motion
  unfolding check_buffer_drain
  drain-OneActive r s h =
      let popped : System F = record s { buffer = (pop r.pop_lock s.buffer).0 } in
      let started = start_popped profile_of recount r (pop r.pop_lock s.buffer).1 popped in
      branches {A = System F × Bool} (λ x. OneActive x.0.motion) (is_empty r.empty_lock s.buffer)
        (s, false) (if not r.buffer_enabled then (s, false) else started) h
        (branches {A = System F × Bool} (λ x. OneActive x.0.motion) (not r.buffer_enabled)
          (s, false) started h (start-OneActive r (pop r.pop_lock s.buffer).1 popped h))

  refresh-Active :
      (s : System F) → Active s.motion → Active (refresh_profile profile_of recount s).motion
  unfolding refresh_profile
  refresh-Active s h =
      branches {A = System F} (λ x. Active x.motion) _ _ _
        (switch-OneActive
          (profile_of s.motion.shared.active_axis (s.commanded s.motion.shared.active_axis))
          s.motion h.1 h.0)
        h

  planner-OneActive :
      (r : Readings) (s : System F)
      → OneActive s.motion
      → OneActive (Planner.update profile_of recount r s).motion
  unfolding Planner.update
  planner-OneActive r s h =
      branch {A = System F} (λ x. OneActive x.motion) (s.motion.shared.active_axis == no_axis) _ _
        (λ _. drain-OneActive r s h)
        λ n.
          branches {A = System F} (λ x. OneActive x.motion) _ _ _
            (approach-Active r _ _
              (look_ahead-Active r _ (refresh-Active s (h, λ e. absurd (ground arith))))).0
            h

  locked-OneActive :
      (t : Tick) (s : System F)
      → OneActive s.motion
      → OneActive (locked_update profile_of recount t s).motion
  unfolding locked_update
  locked-OneActive t s h =
      let q = read-OneActive t.strict_mode t.encoder s.motion h in
      let read = positions_read profile_of recount t s in
      let planned = Planner.update profile_of recount t.readings read in
      branches {A = System F} (λ x. OneActive x.motion) _ _ _
        (stop-OneActive t.now t.clear_lock read q)
        (run-OneActive t planned (planner-OneActive t.readings read q))

  pub tick-OneActive :
      (t : Tick) (b : Backoff) (s : System F)
      → OneActive s.motion
      → OneActive (motion_update profile_of recount t (b, s)).1.motion
  unfolding motion_update
  tick-OneActive t b s h =
      let reset : Backoff = record b { consecutive_skips = 0; backoff_level = 0 } in
      let skipped = skip_update t (b, s) in
      let run : Backoff × System F =
        (if ltb 0 b.consecutive_skips then reset else b, locked_update profile_of recount t s) in
      branches {A = Backoff × System F} (λ x. OneActive x.1.motion) (not s.motion.global_enabled)
        (b, s) (if not t.got_mutex then skipped else run) h
        (branches {A = Backoff × System F} (λ x. OneActive x.1.motion) (not t.got_mutex) skipped run
          (skip-OneActive t b s h) (locked-OneActive t s h))
