-- ===== src/Safety/Levels.antt =====
-- The safety states as levels: the table lets the level fall freely and rise by one, and the
-- emergency stop is open from everywhere.
use bisso_e350_controller.Base.{
  suc, ◌+◌, ◌≤◌, ◌≡◌, ◌≢◌, true, not, ◌&&◌, ◌||◌, ◌==◌, ltb, if◌then◌else◌, some, List, [], ◌∷◌,
  All, length, arith,
}
use bisso_e350_controller.Safety.{
  SafetyState, fsm_ok, fsm_emergency, level, ◌same◌, fault_critical,
  safety_is_valid_state_transition, safety_set_state,
}

-- A transition is in the table exactly when it lowers the level, raises it by one, or is an
-- emergency stop from another state.
pub valid_levels :
    (s t : SafetyState)
    → safety_is_valid_state_transition s t ≡ (
        ltb (level t) (level s)
        || level t == suc (level s)
        || (t same fsm_emergency && not (s same t)))
unfolding safety_is_valid_state_transition
valid_levels fsm_ok t = ground arith
valid_levels _ t = ground arith

-- A request ends in the state that was asked for when the code returns true, and else in the state
-- before; but for the emergency stop no request raises the level by more than one; the emergency
-- stop is never refused, and is logged as critical from any other state.
pub safety_set_state_lem :
    (s t : SafetyState)
    → let (s', done, log) = safety_set_state s t in
      (s' ≡ (if done then t else s))
      × ((t ≢ fsm_emergency) → level s' ≤ suc (level s))
      × ((t ≡ fsm_emergency) → done ≡ true)
      × ((t ≡ fsm_emergency) → s ≢ fsm_emergency → log ≡ some fault_critical)
unfolding safety_set_state
safety_set_state_lem fsm_ok t = ground arith
safety_set_state_lem _ t = ground arith

-- A sequence of requests.
unfoldable pub request_all : List SafetyState → SafetyState → SafetyState
request_all [] s = s
request_all (t ∷ requests) s = request_all requests (safety_set_state s t).0

-- Without an emergency stop among them, requests raise the level by at most one each: a critical
-- state needs three requests from the normal one.
pub request_all-level :
    (requests : List SafetyState) (s : SafetyState)
    → All (λ t. t ≢ fsm_emergency) requests
    → level (request_all requests s) ≤ level s + length requests
unfolding request_all
request_all-level [] s h = omega arith
request_all-level (t ∷ requests) s h =
    ground
      (arith, request_all-level requests (safety_set_state s t).0 h.1, safety_set_state_lem s t)
