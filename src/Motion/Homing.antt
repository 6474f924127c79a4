-- ===== src/Motion/Homing.antt =====
-- The homing sequence: fast approach, backoff, fine approach, settling, zero.
use bisso_e350_controller.Base.{
  ℕ, suc, ◌+◌, ◌≤◌, ◌<◌, ◌≡◌, refl, ◌⊎◌, inl, true, arith, List, [], ◌∷◌, All, length, elapsed,
}
use bisso_e350_controller.Base.Int.{pos}
use bisso_e350_controller.Motion.Types.{
  MotionState, idle, stopping, error, homing_approach_fast, homing_backoff, homing_approach_fine,
  homing_settle, Context, count_zeros,
}
use bisso_e350_controller.Motion.Handlers.{Inputs, update, run_handler, homing_settle_ms}
use bisso_e350_controller.Motion.Graph.{run}

-- How many updates a homing run still needs at least before it sets the encoder to zero.
abbrev pub updates_to_zero : MotionState → ℕ
updates_to_zero homing_approach_fast = 4
updates_to_zero homing_backoff = 3
updates_to_zero homing_approach_fine = 2
updates_to_zero homing_settle = 1
updates_to_zero _ = 5

pub record Zeroed (i : Inputs) (c c' : Context) : Type 0 where
  pub was_settling : c.axis.state ≡ homing_settle
  pub waited : homing_settle_ms < elapsed i.now c.axis.state_entry_ms
  pub is_idle : c'.axis.state ≡ idle
  pub at_zero : c'.axis.position ≡ pos 0
  pub target_zero : c'.axis.target_position ≡ pos 0
  pub once : count_zeros c'.shared.outputs ≡ count_zeros c.shared.outputs + 1

run_handler_zeros :
    (s : MotionState) (i : Inputs) (c : Context)
    → c.axis.state ≡ s
    → (count_zeros (run_handler s i c).shared.outputs ≡ count_zeros c.shared.outputs)
      ⊎ Zeroed i c (run_handler s i c)
unfolding run_handler
run_handler_zeros homing_settle i c h = ground arith
run_handler_zeros stopping i c h = inl (ground arith)
run_handler_zeros _ i c h = inl (ground arith)

run_handler_progress :
    (s : MotionState) (i : Inputs) (c : Context)
    → c.axis.state ≡ s
    → updates_to_zero s ≤ suc (updates_to_zero (run_handler s i c).axis.state)
unfolding run_handler
run_handler_progress stopping i c h = ground arith
run_handler_progress _ i c h = ground arith

-- An update sets an encoder to zero only in the settling state, once more than 1000 ms have gone
-- by in it; the axis is then idle with position and target 0.
pub update_zeros :
    (i : Inputs) (c : Context)
    → (count_zeros (update i c).shared.outputs ≡ count_zeros c.shared.outputs)
      ⊎ Zeroed i c (update i c)
unfolding update
update_zeros i c = ground (arith, run_handler_zeros c.axis.state i c refl)

update_progress :
    (i : Inputs) (c : Context)
    → updates_to_zero c.axis.state ≤ suc (updates_to_zero (update i c).axis.state)
unfolding update
update_progress i c = ground (arith, run_handler_progress c.axis.state i c refl)

-- A run that sets an encoder to zero has at least as many updates as its state is away from the end
-- of the homing sequence: four from the fast approach, three from the backoff, two from the fine
-- approach, one from the settling, and five from any other state.
pub homing_order :
    (is : List Inputs) (c : Context)
    → count_zeros c.shared.outputs < count_zeros (run is c).shared.outputs
    → updates_to_zero c.axis.state ≤ length is
unfolding run
homing_order [] c h = absurd (omega arith)
homing_order (i ∷ is) c h =
    ground (arith, homing_order is (update i c), update_zeros i c, update_progress i c)

update_backoff_held :
    (i : Inputs) (c : Context)
    → c.axis.state ≡ homing_backoff
    → i.switch_hit ≡ true
    → update i c ≡ c
unfolding update run_handler
update_backoff_held i c h s = ground arith

-- The backoff has no time limit: while the limit switch stays closed, no run of updates changes
-- anything on an axis in the backoff, however long it takes.
pub backoff_without_limit :
    (is : List Inputs) (c : Context)
    → c.axis.state ≡ homing_backoff
    → All (λ i. i.switch_hit ≡ true) is
    → run is c ≡ c
unfolding run
backoff_without_limit [] c h a = refl
backoff_without_limit (i ∷ is) c h a =
    rw (update_backoff_held i c h a.0) (backoff_without_limit is c h a.1)

-- Both approaches of the homing sequence have a time limit: behind 45000 ms the next update of an
-- enabled axis ends in `error`, whatever the switch says.
pub approach_limit :
    (i : Inputs) (c : Context)
    → c.axis.enabled ≡ true
    → (c.axis.state ≡ homing_approach_fast) ⊎ (c.axis.state ≡ homing_approach_fine)
    → 45000 < elapsed i.now c.axis.state_entry_ms
    → (update i c).axis.state ≡ error
unfolding update run_handler
approach_limit i c en s t = ground arith
