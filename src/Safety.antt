-- ===== src/Safety.antt =====
-- The safety state machine of src/safety_state_machine.cpp. The descriptions of the table are log
-- texts and are left out.
pub mod Levels
mod Tests
use bisso_e350_controller.Base.{
  ℕ, Bool, true, false, ◌&&◌, ◌==◌, if◌then◌else◌, Option, none, some, List, [], ◌∷◌,
}

-- `safety_fsm_state_t`
pub data SafetyState : Type 0 where
  fsm_ok fsm_warning fsm_alarm fsm_critical fsm_emergency : SafetyState

-- The number of a state in the source's enumeration.
abbrev pub level : SafetyState → ℕ
level fsm_ok = 0
level fsm_warning = 1
level fsm_alarm = 2
level fsm_critical = 3
level fsm_emergency = 4

infix 50 ◌same◌
abbrev pub ◌same◌ : SafetyState → SafetyState → Bool
s same t = level s == level t

-- `fault_severity_t`
pub data Severity : Type 0 where
  fault_none fault_warning fault_error fault_critical : Severity

pub record SafetyTransition : Type 0 where
  pub from : SafetyState
  pub to : SafetyState
  pub log_severity : Severity

abbrev pub entry : SafetyState → SafetyState → Severity → SafetyTransition
entry s t v = record { from = s; to = t; log_severity = v }

abbrev pub fsm_table : List SafetyTransition
fsm_table =
    entry fsm_ok fsm_warning fault_warning
    ∷ entry fsm_ok fsm_emergency fault_critical
    ∷ entry fsm_warning fsm_ok fault_none
    ∷ entry fsm_warning fsm_alarm fault_warning
    ∷ entry fsm_warning fsm_emergency fault_critical
    ∷ entry fsm_alarm fsm_ok fault_none
    ∷ entry fsm_alarm fsm_warning fault_warning
    ∷ entry fsm_alarm fsm_critical fault_error
    ∷ entry fsm_alarm fsm_emergency fault_critical
    ∷ entry fsm_critical fsm_ok fault_none
    ∷ entry fsm_critical fsm_warning fault_warning
    ∷ entry fsm_critical fsm_alarm fault_warning
    ∷ entry fsm_critical fsm_emergency fault_critical
    ∷ entry fsm_emergency fsm_ok fault_none
    ∷ entry fsm_emergency fsm_critical fault_error
    ∷ entry fsm_emergency fsm_alarm fault_warning
    ∷ entry fsm_emergency fsm_warning fault_warning
    ∷ []

-- The first entry of a table with the two states.
unfoldable pub find_in : List SafetyTransition → SafetyState → SafetyState → Option SafetyTransition
find_in [] s t = none
find_in (e ∷ table) s t = if e.from same s && e.to same t then some e else find_in table s t

unfoldable pub find_transition : SafetyState → SafetyState → Option SafetyTransition
unfolding find_in
find_transition s t = find_in fsm_table s t

unfoldable pub safety_is_valid_state_transition : SafetyState → SafetyState → Bool
unfolding find_transition
safety_is_valid_state_transition s t = elim (find_transition s t) [ none ↦ false | some e ↦ true ]

-- What `safetySetState` writes to the fault log: nothing, or an entry of a severity. A refused
-- request is logged as an error.
unfoldable pub logged : Option SafetyTransition → Option Severity
logged none = some fault_error
logged (some e) = elim e.log_severity [ fault_none ↦ none | other ↦ some other ]

-- The new state, what the code returns, and the entry in the fault log.
unfoldable pub safety_set_state : SafetyState → SafetyState → SafetyState × Bool × Option Severity
unfolding find_transition logged
safety_set_state current new_state =
    let found = find_transition current new_state in
    if current same new_state then (current, true, none) else (
      elim found [ none ↦ current | some e ↦ new_state ],
      elim found [ none ↦ false | some e ↦ true ],
      logged found,
    )
