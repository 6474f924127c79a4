-- ===== src/Motion/Graph.antt =====
-- The transition diagram of an axis as its handlers run it.
use bisso_e350_controller.Base.{◌≡◌, refl, ◌⊎◌, inl, inr, true, Bool-cases, arith, List, [], ◌∷◌}
use bisso_e350_controller.Motion.Types.{
  MotionState, idle, wait_consenso, executing, stopping, paused, error, homing_approach_fast,
  homing_backoff, homing_approach_fine, homing_settle, dwell, wait_pin, Context,
}
use bisso_e350_controller.Motion.Fsm.{is_valid_transition}
use bisso_e350_controller.Motion.Handlers.{Inputs, update, run_handler}

-- A handler leaves the state of its axis alone or takes it along one of these edges.
pub data Edge : MotionState → MotionState → Type 0 where
  stay : {s : MotionState} → Edge s s
  consent : Edge wait_consenso executing
  no_consent : Edge wait_consenso error
  arrive : Edge executing stopping
  settled : Edge stopping idle
  hunt : Edge stopping executing
  touch : Edge homing_approach_fast homing_backoff
  lost_fast : Edge homing_approach_fast error
  release : Edge homing_backoff homing_approach_fine
  touch_again : Edge homing_approach_fine homing_settle
  lost_fine : Edge homing_approach_fine error
  homed : Edge homing_settle idle
  dwelt : Edge dwell idle
  pin_seen : Edge wait_pin idle
  pin_lost : Edge wait_pin error

ruleset edges = (
  stay, consent, no_consent, arrive, settled, hunt, touch, lost_fast, release, touch_again,
  lost_fine, homed, dwelt, pin_seen, pin_lost,
)

run_handler-Edge :
    (s : MotionState) (i : Inputs) (c : Context)
    → c.axis.state ≡ s
    → Edge s (run_handler s i c).axis.state
unfolding run_handler
run_handler-Edge executing i c h = grind (arith, edges)
run_handler-Edge stopping i c h = grind (arith, edges)
run_handler-Edge wait_consenso i c h = grind (arith, edges)
run_handler-Edge _ i c h = grind (arith, edges)

-- Every update moves the state of an axis along an edge of the diagram.
pub update-Edge : (i : Inputs) (c : Context) → Edge c.axis.state (update i c).axis.state
unfolding update
update-Edge i c = elim (Bool-cases c.axis.enabled) [
  | inl e ↦ simp e (run_handler-Edge c.axis.state i c refl)
  | inr e ↦ simp e stay
]

-- Every edge of the diagram is a valid transition, so no handler asks for one that is refused.
pub Edge-valid : {s t : MotionState} → Edge s t → (s ≡ t) ⊎ (is_valid_transition s t ≡ true)
unfolding is_valid_transition
Edge-valid stay = inl refl
Edge-valid _ = inr refl

-- A run of the axis: one update for each item of the list.
unfoldable pub run : List Inputs → Context → Context
run [] c = c
run (i ∷ is) c = run is (update i c)

pub data Walk : MotionState → MotionState → Type 0 where
  here : {s : MotionState} → Walk s s
  then : {s t u : MotionState} → Edge s t → Walk t u → Walk s u

-- The state before a run of updates is joined to the state behind it by edges of the diagram.
pub run-Walk : (is : List Inputs) (c : Context) → Walk c.axis.state (run is c).axis.state
unfolding run
run-Walk [] c = here
run-Walk (i ∷ is) c = then (update-Edge i c) (run-Walk is (update i c))

abbrev pub AtRest : MotionState → Type 0
AtRest s = (s ≡ error) ⊎ (s ≡ idle) ⊎ (s ≡ paused)

run_handler-AtRest : (s : MotionState) (i : Inputs) (c : Context) → AtRest s → run_handler s i c ≡ c
unfolding run_handler
run_handler-AtRest idle i c h = refl
run_handler-AtRest paused i c h = refl
run_handler-AtRest error i c h = refl
run_handler-AtRest _ i c h = ground arith

update-AtRest : (i : Inputs) (c : Context) → AtRest c.axis.state → update i c ≡ c
unfolding update
update-AtRest i c h = ground (arith, run_handler-AtRest c.axis.state i c h)

-- On an axis that is idle, paused or in `error`, no run of updates changes anything.
pub run-AtRest : (is : List Inputs) (c : Context) → AtRest c.axis.state → run is c ≡ c
unfolding run
run-AtRest [] c h = refl
run-AtRest (i ∷ is) c h = rw (update-AtRest i c h) (run-AtRest is c h)
