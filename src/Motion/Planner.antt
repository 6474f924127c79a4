-- ===== src/Motion/Planner.antt =====
-- The class `MotionPlanner` of src/motion_planner.cpp, which takes moves from the motion buffer.
-- `profile_of axis speed` is `motionMapSpeedToProfile` of a speed times the feed override, and
-- `recount axis n` the counts that a position of `n` counts becomes when it is converted to
-- millimetres and back; both are floating-point arithmetic and are parameters.
use bisso_e350_controller.Base.{
  ℕ, Bool, true, false, not, ◌&&◌, ◌||◌, if◌then◌else◌, ltb, ◌==◌, Option, none, some, List, [],
  ◌∷◌,
}
use bisso_e350_controller.Base.Int.{ℤ, pos, ltb_ℤ}
use bisso_e350_controller.Motion.Types.{executing, ◌is◌, speed, Context, no_axis, distance}
use bisso_e350_controller.Motion.Control.{
  Motion, axis_at, on_axis, put, select_target, motion_move_absolute,
}
use bisso_e350_controller.MotionBuffer.Ring.{MotionCmd, MotionBuffer, Lock, pop, peek, is_empty}

-- The motion engine with the motion buffer and the commanded speed of each axis.
pub record System (F : Type 0) : Type 0 where
  pub motion : Motion
  pub buffer : MotionBuffer F
  pub commanded : ℕ → F

-- What the planner reads: the configuration, the encoders, the thresholds of the approach in
-- counts, the clock, and what its attempts to take a mutex meet.
pub record Readings : Type 0 where
  pub buffer_enabled : Bool
  pub empty_lock : Lock
  pub peek_lock : Lock
  pub pop_lock : Lock
  pub got_mutex : Bool
  pub encoder : ℕ → ℤ
  pub predicted : ℤ
  pub now : ℕ
  pub slow_threshold : ℤ
  pub med_threshold : ℤ

abbrev pub speed_profile_1 : ℕ
speed_profile_1 = 0

abbrev pub speed_profile_2 : ℕ
speed_profile_2 = 1

abbrev pub new_profile : ℕ → Context → Context
new_profile p c = record c { axis = record c.axis { saved_speed_profile = p } }

-- `motionSetPLCSpeedProfile(p)`, and `p` saved in the active axis.
unfoldable pub switch_profile : ℕ → Motion → Motion
switch_profile p m = on_axis m.shared.active_axis (new_profile p) (put (speed p) m)

abbrev pub retarget : ℤ → Context → Context
retarget t c = record {
  axis = record c.axis { target_position = t };
  shared = record c.shared { active_start_position = c.axis.target_position };
}

unfoldable pub apply_dynamic_approach : Readings → ℤ → Motion → Motion
unfolding switch_profile
apply_dynamic_approach r current_pos m =
    let a = axis_at m.shared.active_axis m in
    let dist = pos (distance a.target_position current_pos) in
    if not (m.shared.active_axis == 0)
    then m
    else if ltb_ℤ dist r.slow_threshold
    then (if not (a.saved_speed_profile == speed_profile_1)
        then switch_profile speed_profile_1 m
        else m)
    else if ltb_ℤ dist r.med_threshold
    then (if not (a.saved_speed_profile == speed_profile_2)
          && not (a.saved_speed_profile == speed_profile_1)
        then switch_profile speed_profile_2 m
        else m)
    else m

module _ {F : Type 0} where
  -- The position that a command has for an axis.
  unfoldable pub target_of : ℕ → MotionCmd F → ℤ
  target_of axis cmd =
      if axis == 0
      then cmd.x_counts
      else if axis == 1
      then cmd.y_counts
      else if axis == 2
      then cmd.z_counts
      else if axis == 3
      then cmd.a_counts
      else pos 0

  abbrev pub with_speed : ℕ → F → System F → System F
  with_speed axis v s = record s { commanded = λ (k : ℕ). if k == axis then v else s.commanded k }

  -- The end of `checkLookAhead`: the command is taken from the buffer, and the axis goes on to it.
  unfoldable pub take_over : Readings → MotionCmd F → System F → System F
  unfolding target_of
  take_over r cmd s =
      let active = s.motion.shared.active_axis in
      with_speed active cmd.speed_mm_s (record s {
        motion = on_axis active (retarget (target_of active cmd)) s.motion;
        buffer = (pop r.pop_lock s.buffer).0;
      })

  -- The part of `checkLookAhead` on the command that `peek` gave.
  unfoldable pub blend : Readings → Option (MotionCmd F) → System F → System F × Bool
  unfolding target_of take_over
  blend r none s = (s, false)
  blend r (some cmd) s =
      let active = s.motion.shared.active_axis in
      let target = (axis_at active s.motion).target_position in
      let next_target = target_of active cmd in
      let current_dir = ltb_ℤ s.motion.shared.active_start_position target in
      let next_dir = ltb_ℤ target next_target in
      if ltb (distance next_target target) 10
      then (s, false)
      else if (if current_dir then next_dir else not next_dir)
      then (take_over r cmd s, true)
      else (s, false)

  unfoldable pub check_look_ahead : Readings → System F → System F × Bool
  unfolding blend
  check_look_ahead r s =
      if not r.buffer_enabled || is_empty r.empty_lock s.buffer
      then (s, false)
      else blend r (peek r.peek_lock s.buffer) s

module _ {F : Type 0} (profile_of : ℕ → F → ℕ) (recount : ℕ → ℤ → ℤ) where
  -- The targets of a command, with the positions of the encoders.
  abbrev pub requests_of : Readings → MotionCmd F → List (ℤ × ℤ)
  requests_of r cmd =
      (recount 0 cmd.x_counts, r.encoder 0)
      ∷ (recount 1 cmd.y_counts, r.encoder 1)
      ∷ (recount 2 cmd.z_counts, r.encoder 2)
      ∷ (recount 3 cmd.a_counts, r.encoder 3)
      ∷ []

  -- The commanded speed is kept as soon as the axis is chosen, before the soft limits are read.
  abbrev pub note_speed : Readings → F → ℕ × Option (ℕ × ℤ) → System F → System F
  note_speed r v (cnt, none) s = s
  note_speed r v (cnt, some (i, t)) s =
      if s.motion.global_enabled
        && r.got_mutex
        && not (ltb 1 cnt || cnt == 0 || not (s.motion.shared.active_axis == no_axis))
      then with_speed i v s
      else s

  abbrev pub profile_for : F → Option (ℕ × ℤ) → ℕ
  profile_for v none = 0
  profile_for v (some (i, t)) = profile_of i v

  -- `motionStartInternalMove`, which is `motionMoveAbsolute`, for a command from the buffer.
  unfoldable pub motion_start_internal_move : Readings → MotionCmd F → System F → System F × Bool
  unfolding motion_move_absolute
  motion_start_internal_move r cmd s =
      let found = select_target 0 (requests_of r cmd) (0, none) in
      let profile = profile_for cmd.speed_mm_s found.1 in
      let (m, done) =
        motion_move_absolute r.got_mutex r.now r.predicted profile (requests_of r cmd) s.motion in
      (record (note_speed r cmd.speed_mm_s found s) { motion = m }, done)

  unfoldable pub start_popped : Readings → Option (MotionCmd F) → System F → System F × Bool
  unfolding motion_start_internal_move
  start_popped r none s = (s, false)
  start_popped r (some cmd) s = ((motion_start_internal_move r cmd s).0, true)

  unfoldable pub check_buffer_drain : Readings → System F → System F × Bool
  unfolding start_popped
  check_buffer_drain r s =
      let (b, cmd, ready) = pop r.pop_lock s.buffer in
      if is_empty r.empty_lock s.buffer
      then (s, false)
      else if not r.buffer_enabled
      then (s, false)
      else start_popped r cmd (record s { buffer = b })

  -- The part of `MotionPlanner::update` that sends the speed profile of an executing axis.
  unfoldable pub refresh_profile : System F → System F
  unfolding switch_profile
  refresh_profile s =
      let active = s.motion.shared.active_axis in
      let desired_profile = profile_of active (s.commanded active) in
      if not (desired_profile == (axis_at active s.motion).saved_speed_profile)
      then record s { motion = switch_profile desired_profile s.motion }
      else s

  unfoldable pub update : Readings → System F → System F
  unfolding check_buffer_drain check_look_ahead refresh_profile apply_dynamic_approach
  update r s =
      let a = axis_at s.motion.shared.active_axis s.motion in
      let ahead = (check_look_ahead r (refresh_profile s)).0 in
      if s.motion.shared.active_axis == no_axis
      then (check_buffer_drain r s).0
      else if a.state is executing
      then record ahead { motion = apply_dynamic_approach r a.position ahead.motion }
      else s
