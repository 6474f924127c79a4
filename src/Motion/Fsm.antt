-- ===== src/Motion/Fsm.antt =====
-- The transitions of src/motion_state_machine.cpp: which are valid, and what one does.
use bisso_e350_controller.Base.{ℕ, Bool, true, false, not, ◌&&◌, ◌||◌, if◌then◌else◌}
use bisso_e350_controller.Motion.Types.{
  MotionState, idle, executing, stopping, error, homing_approach_fast, homing_backoff,
  homing_approach_fine, homing_settle, ◌is◌, idle_event, started, completed, stopped, error_event,
  homing_start, state_change, clear_all, event_set, event_clear, Shared, Context, no_axis, emit,
}

unfoldable pub is_valid_transition : MotionState → MotionState → Bool
is_valid_transition from to =
    if from is error
    then true
    else if to is error || to is idle
    then true
    else if from is idle
    then true
    else if from is homing_approach_fast && not (to is homing_backoff) && not (to is error)
    then false
    else if from is homing_backoff && not (to is homing_approach_fine) && not (to is error)
    then false
    else if from is homing_approach_fine && not (to is homing_settle) && not (to is error)
    then false
    else true

-- The entry callbacks of the state table. No state has an exit callback.
unfoldable pub execute_entry_action : MotionState → Context → Context
unfolding emit
execute_entry_action idle c = record c { shared = record c.shared { active_axis = no_axis } }
execute_entry_action executing c = record c {
  shared = record c.shared { active_start_position = c.axis.position };
}
execute_entry_action stopping c = record c {
  axis = record c.axis { position_at_stop = c.axis.position };
}
execute_entry_action error c = record c { shared = emit clear_all c.shared }
execute_entry_action _ c = c

-- The events that a transition signals behind `EVENT_MOTION_STATE_CHANGE`.
unfoldable pub signal_events : MotionState → MotionState → Shared → Shared
unfolding emit
signal_events old idle s =
    let signalled = emit (event_set idle_event) s in
    if old is executing || old is stopping then emit (event_set completed) signalled else signalled
signal_events old executing s = emit (event_set started) s
signal_events old stopping s = emit (event_set stopped) s
signal_events old error s = emit (event_set error_event) s
signal_events old homing_approach_fast s = emit (event_set homing_start) s
signal_events old homing_settle s = emit (event_clear homing_start) s
signal_events old _ s = s

-- A transition that is accepted, `now` being the time read for `state_entry_ms`.
unfoldable pub enter : ℕ → MotionState → Context → Context
unfolding execute_entry_action signal_events emit
enter now new_state c =
    let moved = record c { axis = record c.axis { state = new_state; state_entry_ms = now } } in
    let entered = execute_entry_action new_state moved in
    record entered {
      shared = signal_events c.axis.state new_state (emit (event_set state_change) entered.shared);
    }

-- `MotionStateMachine::transitionTo` on an axis that is not NULL.
unfoldable pub transition_to : ℕ → MotionState → Context → Context × Bool
unfolding is_valid_transition enter
transition_to now new_state c =
    if is_valid_transition c.axis.state new_state then (enter now new_state c, true) else (c, false)
