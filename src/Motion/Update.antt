-- ===== src/Motion/Update.antt =====
-- `motionUpdate` of src/motion_control.cpp, the loop body of the motion task, with the emergency
-- stop as it acts on the motion buffer too. The prediction of positions and the maintenance checks
-- are floating-point statistics and are left out.
use bisso_e350_controller.Base.{
  ℕ, ◌+◌, ◌*◌, ◌^◌, Bool, false, not, if◌then◌else◌, ltb, leb, ◌==◌, u32, elapsed, min,
}
use bisso_e350_controller.Base.Int.{ℤ}
use bisso_e350_controller.Motion.Types.{motion_timeout, motion_timeout_critical, fault}
use bisso_e350_controller.Motion.Handlers.{Inputs}
use bisso_e350_controller.Motion.Control.{
  Motion, axis_at, put, motion_emergency_stop, update_active,
}
use bisso_e350_controller.Motion.Limits.{read_positions}
use bisso_e350_controller.Motion.Planner.{System, Readings}
use bisso_e350_controller.Motion.Planner
use bisso_e350_controller.MotionBuffer.Ring.{Lock, clear}

-- The static variables of `motionUpdate`.
pub record Backoff : Type 0 where
  pub consecutive_skips : ℕ
  pub last_timeout_warning_ms : ℕ
  pub backoff_level : ℕ

-- What one update reads. `seen_axis` is the active axis before the mutex is taken, `consensus` the
-- input that belongs to it, `now` the clock.
pub record Tick : Type 0 where
  pub got_mutex : Bool
  pub clear_lock : Lock
  pub now : ℕ
  pub strict_mode : Bool
  pub encoder : ℕ → ℤ
  pub seen_axis : ℕ
  pub consensus : Bool
  pub readings : Readings
  pub handler : Inputs

-- How long the update waits for the mutex.
unfoldable pub timeout_ms : Backoff → ℕ
timeout_ms b = if ltb 0 b.backoff_level then min (100 * 2 ^ b.backoff_level) 400 else 100

module _ {F : Type 0} where
  abbrev pub on_motion : (Motion → Motion) → System F → System F
  on_motion f s = record s { motion = f s.motion }

  -- `motionEmergencyStop` with its call of `motionBuffer.clear`.
  unfoldable pub emergency_stop : ℕ → Lock → System F → System F
  emergency_stop now clear_lock s = record s {
    motion = motion_emergency_stop now s.motion;
    buffer = clear clear_lock s.buffer;
  }

  -- The update that does not get the mutex.
  unfoldable pub skip_update : Tick → Backoff × System F → Backoff × System F
  unfolding emergency_stop
  skip_update t (b, s) =
      let skips = u32 (b.consecutive_skips + 1) in
      let level = if leb 10 skips then 2 else if leb 3 skips then 1 else b.backoff_level in
      let warn = leb 5000 (elapsed t.now b.last_timeout_warning_ms) in
      let warned : Backoff = record {
        consecutive_skips = skips;
        last_timeout_warning_ms = if warn then t.now else b.last_timeout_warning_ms;
        backoff_level = level;
      } in
      let s' = if warn then on_motion (put (fault motion_timeout)) s else s in
      if leb 20 skips
      then (
        record warned { consecutive_skips = 0; backoff_level = 0 },
        emergency_stop t.now t.clear_lock (on_motion (put (fault motion_timeout_critical)) s'),
      )
      else (warned, s')

  -- The state machine runs on the active axis, with the consensus of no other axis.
  unfoldable pub run_active : Tick → System F → System F
  run_active t s =
      let active = s.motion.shared.active_axis in
      let a = axis_at active s.motion in
      let inputs = record t.handler {
        current_pos = a.position;
        global_target = a.target_position;
        consensus = if active == t.seen_axis then t.consensus else false;
      } in
      on_motion (update_active inputs) s

module _ {F : Type 0} (profile_of : ℕ → F → ℕ) (recount : ℕ → ℤ → ℤ) where
  -- The part under the mutex.
  unfoldable pub locked_update : Tick → System F → System F
  unfolding emergency_stop run_active
  locked_update t s =
      let (axes, shared, hit) =
        read_positions t.strict_mode t.encoder 0 s.motion.axes s.motion.shared in
      let read = record s { motion = record s.motion { axes = axes; shared = shared } } in
      if hit
      then emergency_stop t.now t.clear_lock read
      else run_active t (Planner.update profile_of recount t.readings read)

  unfoldable pub motion_update : Tick → Backoff × System F → Backoff × System F
  unfolding locked_update skip_update
  motion_update t (b, s) =
      let reset = record b { consecutive_skips = 0; backoff_level = 0 } in
      if not s.motion.global_enabled
      then (b, s)
      else if not t.got_mutex
      then skip_update t (b, s)
      else ((if ltb 0 b.consecutive_skips then reset else b), locked_update t s)
