-- ===== src/Motion/Tests/Loop.antt =====
-- The theorems on the update of the motion task and on the planner at a concrete machine, with speeds
-- as numbers and positions that conversion leaves alone.
use bisso_e350_controller.Base.{
  ℕ, ◌≡◌, refl, inl, inr, Bool, true, false, some, List, [], ◌∷◌, arith, All, replicate,
  length-replicate,
}
use bisso_e350_controller.Base.Int.{ℤ, pos, ◌-ℤ◌}
use bisso_e350_controller.Motion.Types.{idle, executing, error, no_axis, is_driving}
use bisso_e350_controller.Motion.Control.{Motion}
use bisso_e350_controller.Motion.Planner.{System, Readings, target_of, blend, check_look_ahead}
use bisso_e350_controller.Motion.Update.{Backoff, Tick, emergency_stop, motion_update}
use bisso_e350_controller.Motion.SoftLimits.{limit_stops}
use bisso_e350_controller.Motion.Backoff.{Halted, update_all, failures_stop}
use bisso_e350_controller.Motion.LookAhead.{Granted, Extends, look_ahead_lem}
use bisso_e350_controller.Motion.EmergencyStop.{emergency_stop_halts}
use bisso_e350_controller.Motion.OneActive.{OneActive}
use bisso_e350_controller.Motion.OneActive.Runs.{home, clear}
use bisso_e350_controller.Motion.OneActive.Events.{
  Event, halt, command, tick, set_position, set_limits, happen, happen_all, happen_all-OneActive,
}
use bisso_e350_controller.MotionBuffer.Ring.{
  MotionCmd, MotionBuffer, granted, peek, peek_unsafe, is_empty,
}
use bisso_e350_controller.MotionBuffer.Fifo.{dequeue}
use bisso_e350_controller.MotionBuffer.Refinement.{IsValid, contents}
use bisso_e350_controller.Motion.Tests.Data.{calm, quiet, axis_in, resting}

abbrev fast : ℕ → ℕ → ℕ
fast axis v = 2

abbrev same_counts : ℕ → ℤ → ℤ
same_counts axis n = n

abbrev at_x : ℕ → MotionCmd ℕ
at_x x = record {
  x_counts = pos x;
  y_counts = pos 0;
  z_counts = pos 0;
  a_counts = pos 0;
  speed_mm_s = 7;
}

-- A move of the first axis to a position waits in the first cell.
abbrev queue : ℕ → MotionBuffer ℕ
queue x = record { buffer = at_x x ∷ replicate 1023 (at_x 0); head = 1; tail = 0; count = 1 }

queue-IsValid : (x : ℕ) → IsValid (queue x)
queue-IsValid x = record {
  size = omega (arith, length-replicate 1023 (at_x 0));
  count_in = omega arith;
  tail_in = omega arith;
  head_at = refl;
}

-- The first axis moves to 1000 and is at 990.
abbrev moving : Motion
moving = record resting {
  axes =
      record (axis_in 0 executing 0) { position = pos 990; target_position = pos 1000 }
      ∷ axis_in 1 idle 0
      ∷ axis_in 2 idle 0
      ∷ axis_in 3 idle 0
      ∷ [];
  shared = record quiet { active_axis = 0 };
}

abbrev system : Motion → ℕ → System ℕ
system m x = record { motion = m; buffer = queue x; commanded = λ axis. 7 }

abbrev readings : Bool → Readings
readings enabled = record {
  buffer_enabled = enabled;
  empty_lock = granted;
  peek_lock = granted;
  pop_lock = granted;
  got_mutex = true;
  encoder = λ i. pos 0;
  predicted = pos 0;
  now = 9;
  slow_threshold = pos 50;
  med_threshold = pos 200;
}

abbrev all_granted : Granted (readings true)
all_granted = record { for_empty = refl; for_peek = refl; for_pop = refl }

-- An update that has every axis at a position.
abbrev tick_at : Bool → ℕ → Tick
tick_at got x = record {
  got_mutex = got;
  clear_lock = granted;
  now = 9;
  strict_mode = true;
  encoder = λ i. pos x;
  seen_axis = 0;
  consensus = true;
  readings = readings true;
  handler = calm 9;
}

abbrev no_failures : Backoff
no_failures = record { consecutive_skips = 0; last_timeout_warning_ms = 0; backoff_level = 0 }

limit_stops_example :
    let s' =
      (motion_update fast same_counts (tick_at true 2000000) (no_failures, system moving 2000)).1 in
    All (λ a. a.state ≡ error) s'.motion.axes
    × (s'.motion.shared.active_axis ≡ no_axis)
    × (s'.motion.global_enabled ≡ false)
    × (is_driving s'.motion.shared.outputs ≡ false)
    × (contents (at_x 0) s'.buffer ≡ [])
limit_stops_example =
    limit_stops fast same_counts (tick_at true 2000000) no_failures (system moving 2000) (at_x 0) 0
      refl refl refl refl (omega arith) refl

failures_stop_example :
    Halted
      (update_all fast same_counts
        (tick_at false 0 ∷ tick_at false 0 ∷ [])
        (record no_failures { consecutive_skips = 18 }, system moving 2000)).1.motion
failures_stop_example =
    failures_stop fast same_counts (tick_at false 0 ∷ tick_at false 0 ∷ [])
      (record no_failures { consecutive_skips = 18 }) (system moving 2000) refl (refl, (refl, tt))
      (omega arith) (omega arith)

look_ahead_lem_example :
    let s' = (check_look_ahead (readings true) (system moving 2000)).0 in
    IsValid s'.buffer
    × (cmd : MotionCmd ℕ) × (dequeue (contents (at_x 0) (queue 2000))
        ≡ (contents (at_x 0) s'.buffer, some cmd))
    × Extends cmd (system moving 2000) s'
unfolding check_look_ahead blend is_empty peek peek_unsafe target_of ◌-ℤ◌
look_ahead_lem_example =
    look_ahead_lem (readings true) (system moving 2000) (at_x 0) all_granted (queue-IsValid 2000)
      (omega arith) refl

abbrev events : List Event
events =
    set_limits 1 (pos 0) (pos 500)
    ∷ command (home true 9 1 1)
    ∷ tick (tick_at true 20)
    ∷ tick (tick_at false 20)
    ∷ halt 50 granted
    ∷ command (clear false 60)
    ∷ set_position true (λ i. pos 0)
    ∷ []

happen_all-OneActive_example :
    OneActive (happen_all fast same_counts events (no_failures, system resting 2000)).1.motion
unfolding happen emergency_stop
happen_all-OneActive_example =
    happen_all-OneActive fast same_counts events (no_failures, system resting 2000)
      (tt, (tt, (tt, (tt, (tt, ((λ e. (emergency_stop_halts 50 _).1), (tt, tt)))))))
      (record {
        four = refl;
        in_range = inr refl;
        others_rest = (inr (inl refl), (inr (inl refl), (inr (inl refl), (inr (inl refl), tt))));
      })
