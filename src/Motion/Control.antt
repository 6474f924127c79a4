-- ===== src/Motion/Control.antt =====
-- The commands of src/motion_control.cpp on the 4 axes. A command returns the new state and what
-- the code returns. `got_mutex` tells whether `taskLockMutex` was granted and `now` is the time
-- that transitions read.
use bisso_e350_controller.Base.{
  ℕ, suc, ◌+◌, ◌*◌, Bool, true, false, not, ◌&&◌, ◌||◌, if◌then◌else◌, ltb, ◌==◌, u32, Option, none,
  some, List, [], ◌∷◌, get_or, set,
}
use bisso_e350_controller.Base.Int.{ℤ, pos, negsuc, ltb_ℤ}
use bisso_e350_controller.Motion.Types.{
  MotionState, idle, wait_consenso, executing, stopping, paused, error, homing_approach_fast, dwell,
  wait_pin, ◌is◌, Axis, Output, drive, clear_all, speed, begin_transaction, end_transaction,
  emergency_halt, fault, Shared, Context, no_axis, motion_axes, distance,
}
use bisso_e350_controller.Motion.Fsm.{transition_to}
use bisso_e350_controller.Motion.Handlers.{Inputs, update}

-- `axes` and `m_state`.
pub record Motion : Type 0 where
  pub axes : List Axis
  pub shared : Shared
  pub global_enabled : Bool

-- An axis as the constructor of class `Axis` leaves it; static storage holds zeros before.
abbrev pub blank_axis : Axis
blank_axis = record {
  id = 0;
  position = pos 0;
  target_position = pos 0;
  state = idle;
  enabled = true;
  soft_limit_min = negsuc 999999;
  soft_limit_max = pos 1000000;
  soft_limit_enabled = true;
  position_at_stop = pos 0;
  state_entry_ms = 0;
  homing_trigger_pos = pos 0;
  dwell_end_ms = 0;
  wait_pin_type = 0;
  wait_pin_id = 0;
  wait_pin_state = 0;
  wait_pin_timeout_ms = 0;
  saved_speed_profile = 0;
  error_logged = false;
}

-- `axes[i]`; the code reads it at an index below 4 only.
abbrev pub axis_at : ℕ → Motion → Axis
axis_at i m = get_or m.axes i blank_axis

-- A change of `axes[i]` and the shared state.
abbrev pub on_axis : ℕ → (Context → Context) → Motion → Motion
on_axis i f m =
    let c = f (record { axis = axis_at i m; shared = m.shared }) in
    record m { axes = set m.axes i c.axis; shared = c.shared }

-- `MotionStateMachine::transitionTo(&axes[i], new_state)`, its flag not read.
unfoldable pub transition_axis : ℕ → MotionState → ℕ → Motion → Motion
transition_axis now new_state i m = on_axis i (λ c. (transition_to now new_state c).0) m

abbrev pub put : Output → Motion → Motion
put o m = record m { shared = record m.shared { outputs = o ∷ m.shared.outputs } }

abbrev pub set_active : ℕ → Motion → Motion
set_active i m = record m { shared = record m.shared { active_axis = i } }

-- The transaction with which a command starts an axis, behind the release of the mutex.
unfoldable pub start_axis : ℕ → ℕ → Bool → Motion → Motion
start_axis profile axis is_plus m =
    put end_transaction (put (drive axis is_plus) (put (speed profile) (put begin_transaction m)))

unfoldable pub motion_home : Bool → ℕ → ℕ → ℕ → Motion → Motion × Bool
unfolding start_axis
motion_home got_mutex now fast_profile axis m =
    if not (ltb axis motion_axes)
    then (m, false)
    else if not got_mutex
    then (m, false)
    else if not (m.shared.active_axis == no_axis)
    then (m, false)
    else (
      start_axis fast_profile axis false
          (transition_axis now homing_approach_fast axis (set_active axis m)),
      true,
    )

-- The loop of `motionMoveAbsolute` over the requested positions, in counts, and those of the
-- encoders: the number of axes that are to move, and the last of them with its target.
unfoldable pub select_target : ℕ → List (ℤ × ℤ) → ℕ × Option (ℕ × ℤ) → ℕ × Option (ℕ × ℤ)
select_target i [] found = found
select_target i ((t, encoder) ∷ requests) (cnt, chosen) =
    select_target (suc i) requests
      (if ltb 1 (distance t encoder) then (cnt + 1, some (i, t)) else (cnt, chosen))

abbrev pub beyond_limits : Axis → ℤ → Bool
beyond_limits a t = a.soft_limit_enabled && (ltb_ℤ t a.soft_limit_min || ltb_ℤ a.soft_limit_max t)

abbrev pub set_target : ℤ → ℤ → ℕ → ℕ → Context → Context
set_target t predicted profile i c = record {
  axis = record c.axis {
    target_position = t;
    position_at_stop = predicted;
    saved_speed_profile = profile;
  };
  shared = record c.shared { active_axis = i; active_start_position = c.axis.position };
}

-- The rest of that part once the axis is chosen. `predicted` is the extrapolated position of the
-- axis, `now` the time that the transition reads, `profile` that of the commanded speed.
unfoldable pub aim_axis : ℕ → ℤ → ℕ → ℕ → ℤ → Motion → Motion
unfolding transition_axis
aim_axis now predicted profile i t m =
    transition_axis now wait_consenso i (on_axis i (set_target t predicted profile i) m)

unfoldable pub try_move : ℕ → ℤ → ℕ → ℕ × Option (ℕ × ℤ) → Motion → Motion × Option (ℕ × Bool)
unfolding aim_axis
try_move now predicted profile (cnt, none) m = (m, none)
try_move now predicted profile (cnt, some (i, t)) m =
    if ltb 1 cnt || cnt == 0 || not (m.shared.active_axis == no_axis)
    then (m, none)
    else if beyond_limits (axis_at i m) t
    then (m, none)
    else (aim_axis now predicted profile i t m, some (i, ltb_ℤ (axis_at i m).position t))

-- The part of `motionMoveAbsolute` under the mutex: the axis that is to be started behind it with
-- its direction, if the move is accepted.
unfoldable pub move_begin : Bool → ℕ → ℤ → ℕ → List (ℤ × ℤ) → Motion → Motion × Option (ℕ × Bool)
unfolding select_target try_move
move_begin got_mutex now predicted profile requests m =
    if not m.global_enabled
    then (m, none)
    else if not got_mutex
    then (m, none)
    else try_move now predicted profile (select_target 0 requests (0, none)) m

-- The part behind the mutex: the outputs.
unfoldable pub move_end : ℕ → Option (ℕ × Bool) → Motion → Motion × Bool
unfolding start_axis
move_end profile none m = (m, false)
move_end profile (some (i, is_fwd)) m = (start_axis profile i is_fwd m, true)

unfoldable pub motion_move_absolute : Bool → ℕ → ℤ → ℕ → List (ℤ × ℤ) → Motion → Motion × Bool
unfolding move_begin move_end
motion_move_absolute got_mutex now predicted profile requests m =
    let (m', started) = move_begin got_mutex now predicted profile requests m in
    move_end profile started m'

abbrev pub stop_target : Context → Context
stop_target c = record c {
  axis = record c.axis { target_position = c.axis.position; position_at_stop = c.axis.position };
}

unfoldable pub motion_stop : Bool → ℕ → Motion → Motion × Bool
unfolding transition_axis
motion_stop got_mutex now m =
    let active = m.shared.active_axis in
    let halted = transition_axis now stopping active (on_axis active stop_target m) in
    if not got_mutex
    then (m, false)
    else (put clear_all (if active == no_axis then m else halted), true)

unfoldable pub motion_pause : Bool → ℕ → Motion → Motion × Bool
unfolding transition_axis
motion_pause got_mutex now m =
    let active = m.shared.active_axis in
    let state = (axis_at active m).state in
    if not m.global_enabled
    then (m, false)
    else if not got_mutex
    then (m, false)
    else if not (active == no_axis) && (state is executing || state is wait_consenso)
    then (put clear_all (transition_axis now paused active m), true)
    else (m, true)

-- `profile` is that of the commanded speed under the feed override.
unfoldable pub motion_resume : Bool → ℕ → ℕ → Motion → Motion × Bool
unfolding transition_axis start_axis
motion_resume got_mutex now profile m =
    let active = m.shared.active_axis in
    let a = axis_at active m in
    if not m.global_enabled
    then (m, false)
    else if not got_mutex
    then (m, false)
    else if not (active == no_axis) && a.state is paused
    then (
      start_axis profile active (ltb_ℤ a.position a.target_position)
          (transition_axis now wait_consenso active m),
      true,
    )
    else (m, true)

abbrev pub set_dwell : ℕ → Context → Context
set_dwell end_ms c = record c { axis = record c.axis { dwell_end_ms = end_ms } }

-- `now` is read for the end of the dwell, `now_entry` by the transition.
unfoldable pub motion_dwell : Bool → ℕ → ℕ → ℕ → Motion → Motion × Bool
unfolding transition_axis
motion_dwell got_mutex now now_entry ms m =
    let timed = on_axis 0 (set_dwell (u32 (now + ms))) m in
    if not m.global_enabled
    then (m, false)
    else if not got_mutex
    then (m, false)
    else if m.shared.active_axis == no_axis && (axis_at 0 m).state is idle
    then (set_active 0 (transition_axis now_entry dwell 0 timed), true)
    else (m, false)

abbrev pub set_pin : ℕ → ℕ → ℕ → ℕ → Context → Context
set_pin pin_id pin_type pin_state timeout_ms c = record c {
  axis = record c.axis {
    wait_pin_id = pin_id;
    wait_pin_type = pin_type;
    wait_pin_state = pin_state;
    wait_pin_timeout_ms = timeout_ms;
  };
}

-- The timeout of `motionWaitPin` is given in seconds; its milliseconds wrap at 32 bits.
unfoldable pub motion_wait_pin : Bool → ℕ → ℕ → ℕ → ℕ → ℕ → Motion → Motion × Bool
unfolding transition_axis
motion_wait_pin got_mutex now pin_id pin_type pin_state timeout_sec m =
    let armed = on_axis 0 (set_pin pin_id pin_type pin_state (u32 (timeout_sec * 1000))) m in
    if not m.global_enabled
    then (m, false)
    else if not got_mutex
    then (m, false)
    else if m.shared.active_axis == no_axis && (axis_at 0 m).state is idle
    then (set_active 0 (transition_axis now wait_pin 0 armed), true)
    else (m, false)

-- The loop over all axes that takes each one that passes the test to a new state. One time stands
-- for the readings of the clock by these transitions.
unfoldable pub transition_all :
    ℕ → MotionState → (Axis → Bool) → List Axis → Shared → List Axis × Shared
transition_all now new_state test [] s = ([], s)
transition_all now new_state test (a ∷ others) s =
    let c : Context = record { axis = a; shared = s } in
    let c' = if test a then (transition_to now new_state c).0 else c in
    let (others', s') = transition_all now new_state test others c'.shared in
    (c'.axis ∷ others', s')

-- The emergency stop works with and without the mutex. Clearing the motion buffer and the display
-- calls belong to other parts.
unfoldable pub motion_emergency_stop : ℕ → Motion → Motion
unfolding transition_all
motion_emergency_stop now m =
    let halted = put clear_all m in
    let disabled = record halted.shared { active_axis = no_axis } in
    let (axes', shared') = transition_all now error (λ a. true) m.axes disabled in
    put (fault emergency_halt) (record { axes = axes'; shared = shared'; global_enabled = false })

-- `alarmed` is `safetyIsAlarmed()`.
unfoldable pub motion_clear_emergency_stop : Bool → ℕ → Motion → Motion × Bool
unfolding transition_all
motion_clear_emergency_stop alarmed now m =
    let enabled = record m.shared { active_axis = no_axis } in
    let (axes', shared') = transition_all now idle (λ a. a.state is error) m.axes enabled in
    if m.global_enabled
    then (m, true)
    else if alarmed
    then (m, false)
    else (record { axes = axes'; shared = shared'; global_enabled = true }, true)

-- The part of `motionUpdate` that runs the state machine, which it does for the active axis only.
unfoldable pub update_active : Inputs → Motion → Motion
update_active i m =
    if m.shared.active_axis == no_axis then m else on_axis m.shared.active_axis (update i) m
