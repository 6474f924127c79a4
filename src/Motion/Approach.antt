-- ===== src/Motion/Approach.antt =====
-- Two weaknesses of the planner of src/motion_planner.cpp: it blends in moves that are beyond the
-- soft limits, and it sends two speeds in each update of the approach.
use bisso_e350_controller.Base.{
  ℕ, ◌≤◌, ◌<◌, ◌≡◌, ◌≢◌, refl, true, false, ◌∷◌, arith, none, some, length, get_or-set_self,
  length-set, ◌∙◌, ap, sym,
}
use bisso_e350_controller.Base.Int.{ℤ, pos, ltb_ℤ}
use bisso_e350_controller.Motion.Types.{executing, Axis, speed, no_axis, distance}
use bisso_e350_controller.Motion.Control.{
  Motion, axis_at, blank_axis, beyond_limits, set_active, try_move,
}
use bisso_e350_controller.Motion.Planner.{
  System, Readings, target_of, take_over, blend, check_look_ahead, switch_profile, refresh_profile,
  apply_dynamic_approach, speed_profile_1,
}
use bisso_e350_controller.Motion.Planner
use bisso_e350_controller.Motion.LookAhead.{Granted}
use bisso_e350_controller.MotionBuffer.Ring.{MotionCmd, granted, peek, is_empty, peek_unsafe}

module _ {F : Type 0} (r : Readings) (cmd : MotionCmd F) (s : System F) where
  abbrev pub running : Axis
  running = axis_at s.motion.shared.active_axis s.motion

  abbrev pub goal : ℤ
  goal = target_of s.motion.shared.active_axis cmd

  blend-takes :
      10 ≤ distance goal running.target_position
      → ltb_ℤ s.motion.shared.active_start_position running.target_position
        ≡ ltb_ℤ running.target_position goal
      → blend r (some cmd) s ≡ (take_over r cmd s, true)
  unfolding blend
  blend-takes far way = ground arith

  look_ahead-takes :
      Granted r
      → r.buffer_enabled ≡ true
      → peek granted s.buffer ≡ some cmd
      → blend r (some cmd) s ≡ (take_over r cmd s, true)
      → check_look_ahead r s ≡ (take_over r cmd s, true)
  unfolding check_look_ahead is_empty peek peek_unsafe
  look_ahead-takes g en p e = rw (g.for_empty, g.for_peek, en) (ground arith)

  -- The first move of the queue is blended in although its position is beyond the soft limits of
  -- the axis, when it lies 10 counts or more behind the target in the same direction; the command
  -- of a move to that position refuses it.
  pub blend_beyond_limits :
      (now profile : ℕ) (predicted : ℤ)
      → Granted r
      → r.buffer_enabled ≡ true
      → peek granted s.buffer ≡ some cmd
      → s.motion.shared.active_axis < length s.motion.axes
      → 10 ≤ distance goal running.target_position
      → ltb_ℤ s.motion.shared.active_start_position running.target_position
        ≡ ltb_ℤ running.target_position goal
      → beyond_limits running goal ≡ true
      → let s' = (check_look_ahead r s).0 in
        let a' = axis_at s.motion.shared.active_axis s'.motion in
        (beyond_limits a' a'.target_position ≡ true)
        × ((try_move now predicted profile
              (1, some (s.motion.shared.active_axis, goal))
              (set_active no_axis s.motion)).1
            ≡ none)
  unfolding try_move take_over
  blend_beyond_limits now profile predicted g en p lt far way out =
      let i = s.motion.shared.active_axis in
      let e =
        get_or-set_self s.motion.axes i (record running { target_position = goal }) blank_axis lt in
      (rw (look_ahead-takes g en p (blend-takes far way), e) out, rw out refl)

module _ {F : Type 0} (profile_of : ℕ → F → ℕ) (recount : ℕ → ℤ → ℤ) where
  switched :
      (p : ℕ) (m : Motion)
      → m.shared.active_axis ≡ 0
      → 0 < length m.axes
      → let m' = switch_profile p m in
        (axis_at 0 m' ≡ record (axis_at 0 m) { saved_speed_profile = p })
        × (m'.shared.outputs ≡ speed p ∷ m.shared.outputs)
        × (m'.shared.active_axis ≡ 0)
        × (0 < length m'.axes)
  unfolding switch_profile
  switched p m act four =
      let a = record (axis_at 0 m) { saved_speed_profile = p } in
      rw act (
        get_or-set_self m.axes 0 a blank_axis four,
        refl,
        refl,
        omega (arith, length-set m.axes 0 a),
      )

  refreshes :
      (s : System F)
      → s.motion.shared.active_axis ≡ 0
      → profile_of 0 (s.commanded 0) ≢ (axis_at 0 s.motion).saved_speed_profile
      → refresh_profile profile_of recount s
        ≡ record s { motion = switch_profile (profile_of 0 (s.commanded 0)) s.motion }
  unfolding refresh_profile
  refreshes s act d = rw act (ground arith)

  slows :
      (r : Readings) (t : ℤ) (m : Motion)
      → m.shared.active_axis ≡ 0
      → (axis_at 0 m).saved_speed_profile ≢ speed_profile_1
      → ltb_ℤ (pos (distance (axis_at 0 m).target_position t)) r.slow_threshold ≡ true
      → apply_dynamic_approach r t m ≡ switch_profile speed_profile_1 m
  unfolding apply_dynamic_approach
  slows r t m act d near = rw act (ground arith)

  executing-update :
      (r : Readings) (s : System F)
      → r.buffer_enabled ≡ false
      → s.motion.shared.active_axis ≡ 0
      → (axis_at 0 s.motion).state ≡ executing
      → let q = refresh_profile profile_of recount s in
        Planner.update profile_of recount r s
        ≡ record q { motion = apply_dynamic_approach r (axis_at 0 s.motion).position q.motion }
  unfolding Planner.update check_look_ahead
  executing-update r s off act ex = rw (off, act, ex) refl

  -- Within the slow zone of the first axis, with no move to blend in, each update of the planner
  -- sends the commanded speed and then the slow one again, when the two differ, and leaves the axis
  -- executing with the slow one saved, as it was: so the next update does the same.
  pub approach_alternates :
      (r : Readings) (s : System F)
      → r.buffer_enabled ≡ false
      → s.motion.shared.active_axis ≡ 0
      → 0 < length s.motion.axes
      → (axis_at 0 s.motion).state ≡ executing
      → (axis_at 0 s.motion).saved_speed_profile ≡ speed_profile_1
      → profile_of 0 (s.commanded 0) ≢ speed_profile_1
      → ltb_ℤ
          (pos (distance (axis_at 0 s.motion).target_position (axis_at 0 s.motion).position))
          r.slow_threshold
        ≡ true
      → let s' = Planner.update profile_of recount r s in
        (s'.motion.shared.outputs
          ≡ speed speed_profile_1 ∷ speed (profile_of 0 (s.commanded 0)) ∷ s.motion.shared.outputs)
        × (axis_at 0 s'.motion ≡ axis_at 0 s.motion)
        × (s'.motion.shared.active_axis ≡ 0)
  approach_alternates r s off act four ex saved fast near =
      let m = s.motion in
      let d = profile_of 0 (s.commanded 0) in
      let (e, o, act', four') = switched d m act four in
      let (e', o', act'', four'') = switched speed_profile_1 (switch_profile d m) act' four' in
      rw
        (
          executing-update r s off act ex,
          refreshes s act (λ h. fast (h ∙ saved)),
          slows r (axis_at 0 m).position (switch_profile d m) act' (rw e fast) (rw e near),
        )
        (
          o' ∙ ap (λ os. speed speed_profile_1 ∷ os) o,
          e'
              ∙ ap {A = Axis} {B = Axis} (λ a. record a { saved_speed_profile = speed_profile_1 }) e
              ∙ ap {B = Axis} (λ p. record (axis_at 0 m) { saved_speed_profile = p }) (sym saved),
          act'',
        )
