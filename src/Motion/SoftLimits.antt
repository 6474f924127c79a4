-- ===== src/Motion/SoftLimits.antt =====
-- What the soft limits guarantee under strict limits: `checkSoftLimits` and the loop of
-- `motionUpdate` in src/motion_control.cpp.
use bisso_e350_controller.Base.{
  ◌∙◌, Bool-cases, inl, inr, Option, none, some, ℕ, zero, suc, ◌+◌, ◌<◌, not, ◌≡◌, refl, Bool, true,
  false, ◌&&◌, ◌||◌, List, [], ◌∷◌, arith, All, get_or, length,
}
use bisso_e350_controller.Base.Int.{ℤ}
use bisso_e350_controller.Motion.Types.{error, Axis, Shared, Context, no_axis, is_driving}
use bisso_e350_controller.Motion.Control.{
  Motion, select_target, axis_at, blank_axis, motion_emergency_stop, motion_move_absolute,
  move_begin, move_end, try_move, aim_axis, start_axis, transition_axis, update_active,
}
use bisso_e350_controller.Motion.EmergencyStop.{emergency_stop_halts}
use bisso_e350_controller.Motion.Limits.{outside_limits, check_soft_limits, read_positions}
use bisso_e350_controller.Motion.Planner.{
  System, Readings, profile_for, requests_of, check_buffer_drain, check_look_ahead, refresh_profile,
  switch_profile, apply_dynamic_approach, blend, start_popped, motion_start_internal_move,
}
use bisso_e350_controller.Motion.Planner
use bisso_e350_controller.Motion.Update.{
  Backoff, Tick, emergency_stop, locked_update, motion_update, run_active,
}
use bisso_e350_controller.MotionBuffer.Ring.{MotionCmd, granted, clear, pop}
use bisso_e350_controller.MotionBuffer.Refinement.{contents}

-- An axis where its encoder has it.
abbrev pub moved_to : ℤ → Axis → Axis
moved_to p a = record a { position = p }

abbrev pub any_outside : (ℕ → ℤ) → ℕ → List Axis → Bool
any_outside encoder i [] = false
any_outside encoder i (a ∷ axes) =
    outside_limits (moved_to (encoder i) a) || any_outside encoder (suc i) axes

check-outside :
    (strict : Bool) (c : Context)
    → (check_soft_limits strict c).1 ≡ (strict && outside_limits c.axis)
unfolding check_soft_limits
check-outside strict c = ground arith

read-any_outside :
    (strict : Bool) (encoder : ℕ → ℤ) (i : ℕ) (axes : List Axis) (s : Shared)
    → (read_positions strict encoder i axes s).2 ≡ (strict && any_outside encoder i axes)
unfolding read_positions
read-any_outside strict encoder i [] s = ground arith
read-any_outside strict encoder i (a ∷ axes) s =
    let c : Context = record { axis = moved_to (encoder i) a; shared = s } in
    let next = (check_soft_limits strict c).0 in
    ground (arith, check-outside strict c, read-any_outside strict encoder (suc i) axes next.shared)

any_outside-at :
    (encoder : ℕ → ℤ) (n i k : ℕ) (axes : List Axis)
    → n ≡ i + k
    → k < length axes
    → outside_limits (moved_to (encoder n) (get_or axes k blank_axis)) ≡ true
    → any_outside encoder i axes ≡ true
any_outside-at encoder n i k [] e lt h = absurd (omega arith)
any_outside-at encoder n i zero (a ∷ axes) e lt h =
    let e' : n ≡ i = omega arith in
    let h' : outside_limits (moved_to (encoder i) a) ≡ true = rw (← e') h in ground (arith, h')
any_outside-at encoder n i (suc k) (a ∷ axes) e lt h =
    ground (arith, any_outside-at encoder n (suc i) k axes (omega arith) (omega arith) h)

try-enabled :
    (now profile : ℕ) (predicted : ℤ) (found : ℕ × Option (ℕ × ℤ)) (m : Motion)
    → (try_move now predicted profile found m).0.global_enabled ≡ m.global_enabled
unfolding try_move aim_axis transition_axis
try-enabled now profile predicted (cnt, none) m = refl
try-enabled now profile predicted (cnt, some (i, t)) m = ground arith

move-enabled :
    (got_mutex : Bool) (now profile : ℕ) (predicted : ℤ) (requests : List (ℤ × ℤ)) (m : Motion)
    → (motion_move_absolute got_mutex now predicted profile requests m).0.global_enabled
      ≡ m.global_enabled
unfolding motion_move_absolute move_begin move_end start_axis
move-enabled got_mutex now profile predicted requests m =
    ground (arith, try-enabled now profile predicted (select_target 0 requests (0, none)) m)

module _ {F : Type 0} (profile_of : ℕ → F → ℕ) (recount : ℕ → ℤ → ℤ) where
  -- The system with the positions that an update has read.
  abbrev pub positions_read : Tick → System F → System F
  positions_read t s =
      let (axes, shared, hit) =
        read_positions t.strict_mode t.encoder 0 s.motion.axes s.motion.shared in
      record s { motion = record s.motion { axes = axes; shared = shared } }

  pub update-hit :
      (t : Tick) (b : Backoff) (s : System F)
      → s.motion.global_enabled ≡ true
      → t.got_mutex ≡ true
      → (read_positions t.strict_mode t.encoder 0 s.motion.axes s.motion.shared).2 ≡ true
      → (motion_update profile_of recount t (b, s)).1
        ≡ emergency_stop t.now t.clear_lock (positions_read t s)
  unfolding motion_update locked_update
  update-hit t b s en got hit = ground arith

  pub update-run :
      (t : Tick) (b : Backoff) (s : System F)
      → s.motion.global_enabled ≡ true
      → t.got_mutex ≡ true
      → (read_positions t.strict_mode t.encoder 0 s.motion.axes s.motion.shared).2 ≡ false
      → (motion_update profile_of recount t (b, s)).1
        ≡ run_active t (Planner.update profile_of recount t.readings (positions_read t s))
  unfolding motion_update locked_update
  update-run t b s en got hit = ground arith

  -- With motion enabled, under strict limits, when the encoder has one of the axes outside its soft
  -- limits, in a state before homing, an update that gets the mutex of the motion and that of the
  -- motion buffer stops everything: every axis is in `error`, none is active, motion is disabled, the
  -- outputs hold no movement command, and no command waits in the motion buffer.
  pub limit_stops :
      (t : Tick) (b : Backoff) (s : System F) (blank : MotionCmd F) (k : ℕ)
      → s.motion.global_enabled ≡ true
      → t.got_mutex ≡ true
      → t.clear_lock ≡ granted
      → t.strict_mode ≡ true
      → k < length s.motion.axes
      → outside_limits (moved_to (t.encoder k) (axis_at k s.motion)) ≡ true
      → let s' = (motion_update profile_of recount t (b, s)).1 in
        All (λ a. a.state ≡ error) s'.motion.axes
        × (s'.motion.shared.active_axis ≡ no_axis)
        × (s'.motion.global_enabled ≡ false)
        × (is_driving s'.motion.shared.outputs ≡ false)
        × (contents blank s'.buffer ≡ [])
  unfolding emergency_stop clear
  limit_stops t b s blank k en got lock strict lt out =
      let hit = read-any_outside t.strict_mode t.encoder 0 s.motion.axes s.motion.shared in
      let found = any_outside-at t.encoder k 0 k s.motion.axes (omega arith) lt out in
      let (e, n, d, o) = emergency_stop_halts t.now (positions_read t s).motion in
      rw (update-hit t b s en got (ground arith)) (e, n, d, o, rw lock refl)

  popped-enabled :
      (r : Readings) (cmd : Option (MotionCmd F)) (s : System F)
      → (start_popped profile_of recount r cmd s).0.motion.global_enabled ≡ s.motion.global_enabled
  unfolding start_popped motion_start_internal_move
  popped-enabled r none s = refl
  popped-enabled r (some cmd) s =
      let profile =
        profile_for profile_of recount cmd.speed_mm_s
          (select_target 0 (requests_of profile_of recount r cmd) (0, none)).1 in
      move-enabled r.got_mutex r.now profile r.predicted (requests_of profile_of recount r cmd)
        s.motion

  drain-enabled :
      (r : Readings) (s : System F)
      → (check_buffer_drain profile_of recount r s).0.motion.global_enabled
        ≡ s.motion.global_enabled
  unfolding check_buffer_drain
  drain-enabled r s = ground (
    arith,
    popped-enabled r (pop r.pop_lock s.buffer).1
        (record s { buffer = (pop r.pop_lock s.buffer).0 }),
  )

  planner-enabled :
      (r : Readings) (s : System F)
      → (Planner.update profile_of recount r s).motion.global_enabled ≡ s.motion.global_enabled
  unfolding Planner.update check_look_ahead blend refresh_profile switch_profile
      apply_dynamic_approach
  planner-enabled r s = ground (arith, drain-enabled r s)

  run-enabled :
      (t : Tick) (s : System F) → (run_active t s).motion.global_enabled ≡ s.motion.global_enabled
  unfolding run_active update_active
  run-enabled t s = ground arith

  -- An update that gets the mutex with motion enabled leaves motion enabled exactly if the limits
  -- are not strict or the encoders have no axis outside its soft limits.
  pub update_enabled :
      (t : Tick) (b : Backoff) (s : System F)
      → s.motion.global_enabled ≡ true
      → t.got_mutex ≡ true
      → (motion_update profile_of recount t (b, s)).1.motion.global_enabled
        ≡ not (t.strict_mode && any_outside t.encoder 0 s.motion.axes)
  unfolding emergency_stop motion_emergency_stop
  update_enabled t b s en got =
      let e = read-any_outside t.strict_mode t.encoder 0 s.motion.axes s.motion.shared in
      let planned = Planner.update profile_of recount t.readings (positions_read t s) in
      elim (Bool-cases (t.strict_mode && any_outside t.encoder 0 s.motion.axes)) [
        | inl hit ↦
            rw (update-hit t b s en got (rw e hit), hit)
              (emergency_stop_halts t.now (positions_read t s).motion).2
        | inr none_hit ↦
            rw (update-run t b s en got (rw e none_hit), none_hit)
              (run-enabled t planned ∙ planner-enabled t.readings (positions_read t s) ∙ en)
      ]
