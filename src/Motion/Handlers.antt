-- ===== src/Motion/Handlers.antt =====
-- The state handlers of src/motion_state_machine.cpp and `MotionStateMachine::update`.
use bisso_e350_controller.Base.{
  ℕ, Bool, true, false, not, ◌&&◌, ◌||◌, if◌then◌else◌, ltb, leb, ◌==◌, elapsed,
}
use bisso_e350_controller.Base.Int.{ℤ, pos, negsuc, ltb_ℤ}
use bisso_e350_controller.Motion.Types.{
  MotionState, idle, wait_consenso, executing, stopping, paused, error, homing_approach_fast,
  homing_backoff, homing_approach_fine, homing_settle, dwell, wait_pin, Axis, homing_complete,
  consensus_timeout, pin_wait_timeout, Output, drive, clear_all, speed, begin_transaction,
  end_transaction, zero_encoder, event_set, fault, Context, emit, distance,
}
use bisso_e350_controller.Motion.Fsm.{transition_to}

abbrev pub consenso_timeout_ms : ℕ
consenso_timeout_ms = 5000

abbrev pub homing_settle_ms : ℕ
homing_settle_ms = 1000

-- What a handler reads from its arguments, the clock, the configuration and the inputs.
-- `margin_counts` is the product of the configured margin and the axis scale, cast to an integer;
-- `now`, `now_later` and `now_entry` are the readings of `millis()` by the handler's first and
-- second timing test and by the transition.
pub record Inputs : Type 0 where
  pub current_pos : ℤ
  pub global_target : ℤ
  pub consensus : Bool
  pub now : ℕ
  pub now_later : ℕ
  pub now_entry : ℕ
  pub hardware_present : Bool
  pub margin_counts : ℤ
  pub stop_timeout : ℕ
  pub switch_hit : Bool
  pub slow_profile : ℕ
  pub i73_pin : Bool
  pub gpio_pin : Bool
  pub estop_active : Bool
  pub pause_pressed : Bool
  pub resume_pressed : Bool
  pub connection_ok : Bool

-- The context after an attempted transition; no handler reads the flag that tells its success.
unfoldable pub move_to : Inputs → MotionState → Context → Context
unfolding transition_to
move_to i new_state c = (transition_to i.now_entry new_state c).0

unfoldable pub send : Output → Context → Context
unfolding emit
send o c = record c { shared = emit o c.shared }

-- `if (margin_counts < 1) margin_counts = 1;`
abbrev pub margin_of : ℤ → ℕ
margin_of (pos n) = if ltb n 1 then 1 else n
margin_of (negsuc n) = 1

unfoldable pub wait_consenso_handler : Inputs → Context → Context
unfolding move_to send
wait_consenso_handler i c =
    if not i.hardware_present
    then move_to i executing c
    else if ltb consenso_timeout_ms (elapsed i.now c.axis.state_entry_ms)
    then move_to i error (send (fault consensus_timeout) c)
    else if i.consensus
    then move_to i executing c
    else c

-- Within the margin, or past the target as seen from the start position.
unfoldable pub target_reached : Inputs → Context → Bool
target_reached i c =
    let start_pos = c.shared.active_start_position in
    if leb (distance i.current_pos i.global_target) (margin_of i.margin_counts)
    then true
    else if ltb_ℤ start_pos i.global_target && not (ltb_ℤ i.current_pos i.global_target)
    then true
    else ltb_ℤ i.global_target start_pos && not (ltb_ℤ i.global_target i.current_pos)

unfoldable pub executing_handler : Inputs → Context → Context
unfolding target_reached move_to send
executing_handler i c =
    if target_reached i c
    then move_to i stopping
        (send clear_all (record c { axis = record c.axis { position_at_stop = i.current_pos } }))
    else c

unfoldable pub stopping_handler : Inputs → Context → Context
unfolding move_to send
stopping_handler i c =
    let id = c.axis.id in
    let settle_time = elapsed i.now c.axis.state_entry_ms in
    let is_fwd = ltb_ℤ i.current_pos i.global_target in
    if leb (distance i.current_pos i.global_target) (margin_of i.margin_counts)
    then move_to i idle c
    else if (id == 0 || id == 2) && ltb 600 settle_time
    then move_to i executing
        (send end_transaction (send (drive id is_fwd) (send (speed 0) (send begin_transaction c))))
    else if ltb i.stop_timeout (elapsed i.now_later c.axis.state_entry_ms)
    then move_to i idle c
    else c

unfoldable pub homing_approach_fast_handler : Inputs → Context → Context
unfolding move_to send
homing_approach_fast_handler i c =
    if ltb 45000 (elapsed i.now c.axis.state_entry_ms)
    then move_to i error c
    else if i.switch_hit
    then move_to i homing_backoff
        (send (drive c.axis.id true) (send (speed i.slow_profile) (send clear_all c)))
    else c

unfoldable pub homing_backoff_handler : Inputs → Context → Context
unfolding move_to send
homing_backoff_handler i c =
    if not i.switch_hit && ltb 1000 (elapsed i.now c.axis.state_entry_ms)
    then move_to i homing_approach_fine
        (send (drive c.axis.id false) (send (speed i.slow_profile) (send clear_all c)))
    else c

unfoldable pub homing_approach_fine_handler : Inputs → Context → Context
unfolding move_to
homing_approach_fine_handler i c =
    if ltb 45000 (elapsed i.now c.axis.state_entry_ms)
    then move_to i error c
    else if i.switch_hit
    then move_to i homing_settle
        (record c { axis = record c.axis { homing_trigger_pos = i.current_pos } })
    else c

unfoldable pub homing_settle_handler : Inputs → Context → Context
unfolding move_to send
homing_settle_handler i c =
    if ltb homing_settle_ms (elapsed i.now c.axis.state_entry_ms)
    then move_to i idle (
        send (event_set homing_complete) (
          send (zero_encoder c.axis.id)
            (record c { axis = record c.axis { position = pos 0; target_position = pos 0 } })))
    else c

-- `(int32_t)(now - dwell_end_ms) >= 0`
unfoldable pub dwell_handler : Inputs → Context → Context
unfolding move_to
dwell_handler i c =
    if ltb (elapsed i.now c.axis.dwell_end_ms) 2147483648 then move_to i idle c else c

abbrev pub number_of_bool : Bool → ℕ
number_of_bool true = 1
number_of_bool false = 0

unfoldable pub pin_state : Inputs → Axis → Bool
pin_state i a =
    if a.wait_pin_type == 0
    then i.i73_pin
    else if a.wait_pin_type == 1
    then (if a.wait_pin_id == 0
        then i.estop_active
        else if a.wait_pin_id == 1
        then i.pause_pressed
        else if a.wait_pin_id == 2
        then i.resume_pressed
        else false)
    else if a.wait_pin_type == 2
    then i.gpio_pin
    else false

unfoldable pub pin_ready : Inputs → Axis → Bool
pin_ready i a =
    if a.wait_pin_type == 0
    then true
    else if a.wait_pin_type == 1
    then i.connection_ok
    else a.wait_pin_type == 2

unfoldable pub wait_pin_handler : Inputs → Context → Context
unfolding pin_state pin_ready move_to send
wait_pin_handler i c =
    let a = c.axis in
    if pin_ready i a && number_of_bool (pin_state i a) == a.wait_pin_state
    then move_to i idle c
    else if ltb 0 a.wait_pin_timeout_ms
        && leb a.wait_pin_timeout_ms (elapsed i.now a.state_entry_ms)
    then move_to i error (send (fault pin_wait_timeout) c)
    else c

-- The handler column of the state table.
unfoldable pub run_handler : MotionState → Inputs → Context → Context
unfolding wait_consenso_handler executing_handler stopping_handler homing_approach_fast_handler
    homing_backoff_handler homing_approach_fine_handler homing_settle_handler dwell_handler
    wait_pin_handler
run_handler idle i c = c
run_handler wait_consenso i c = wait_consenso_handler i c
run_handler executing i c = executing_handler i c
run_handler stopping i c = stopping_handler i c
run_handler paused i c = c
run_handler error i c = c
run_handler homing_approach_fast i c = homing_approach_fast_handler i c
run_handler homing_backoff i c = homing_backoff_handler i c
run_handler homing_approach_fine i c = homing_approach_fine_handler i c
run_handler homing_settle i c = homing_settle_handler i c
run_handler dwell i c = dwell_handler i c
run_handler wait_pin i c = wait_pin_handler i c

-- `MotionStateMachine::update` on an axis that is not NULL.
unfoldable pub update : Inputs → Context → Context
unfolding run_handler
update i c = if c.axis.enabled then run_handler c.axis.state i c else c
