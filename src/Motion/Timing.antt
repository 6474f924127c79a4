-- ===== src/Motion/Timing.antt =====
-- The time limits of the state machine, on a clock of 32 bits that wraps.
use bisso_e350_controller.Base.{
  ℕ, ◌+◌, ◌<◌, ◌≡◌, ◌≢◌, true, arith, elapsed, u32, if◌then◌else◌, ltb, leb,
}
use bisso_e350_controller.Motion.Types.{
  idle, wait_consenso, executing, stopping, error, dwell, Context, no_axis,
}
use bisso_e350_controller.Motion.Handlers.{Inputs, update, run_handler, consenso_timeout_ms}

-- The time that has gone by is read rightly across the wrap of the clock.
pub elapsed_wraps : (t d : ℕ) → t < 4294967296 → d < 4294967296 → elapsed (u32 (t + d)) t ≡ d
elapsed_wraps t d ht hd = omega arith

-- An enabled axis that has waited `d` ms for the consensus of the PLC, with the hardware present,
-- ends in `error` exactly when more than 5000 ms have gone by, and before that starts exactly when
-- the consensus is there and else goes on waiting. The 32-bit clock may have wrapped in between;
-- `d` is below its period.
pub wait_consenso_lem :
    (i : Inputs) (c : Context) (t d : ℕ)
    → c.axis.enabled ≡ true
    → c.axis.state ≡ wait_consenso
    → i.hardware_present ≡ true
    → c.axis.state_entry_ms ≡ t
    → i.now ≡ u32 (t + d)
    → t < 4294967296
    → d < 4294967296
    → (update i c).axis.state ≡ (
        if ltb consenso_timeout_ms d
        then error
        else if i.consensus
        then executing
        else wait_consenso)
unfolding update run_handler
wait_consenso_lem i c t d en st hw e n ht hd = ground (arith, elapsed_wraps t d)

-- A dwell of `ms` of an enabled axis that began at `t`, looked at `d` ms later, is over exactly
-- when `ms` have gone by, the wrap of the clock included; both durations are below 2^31 ms (24.8
-- days).
pub dwell_lem :
    (i : Inputs) (c : Context) (t ms d : ℕ)
    → c.axis.enabled ≡ true
    → c.axis.state ≡ dwell
    → c.axis.dwell_end_ms ≡ u32 (t + ms)
    → i.now ≡ u32 (t + d)
    → ms < 2147483648
    → d < 2147483648
    → (update i c).axis.state ≡ (if leb ms d then idle else dwell)
unfolding update run_handler
dwell_lem i c t ms d en st e n hm hd = ground arith

-- A stop of an enabled axis without position hunt (any but 0 and 2) has a limit: when more than
-- `stop_timeout` ms have gone by, the next update leaves the axis idle and no axis active, whatever
-- its position.
pub stopping_limit :
    (i : Inputs) (c : Context)
    → c.axis.enabled ≡ true
    → c.axis.state ≡ stopping
    → c.axis.id ≢ 0
    → c.axis.id ≢ 2
    → i.stop_timeout < elapsed i.now_later c.axis.state_entry_ms
    → ((update i c).axis.state ≡ idle) × ((update i c).shared.active_axis ≡ no_axis)
unfolding update run_handler
stopping_limit i c en st x z t = ground arith
