-- ===== src/Plc/Playback.antt =====
-- The outputs that the motion engine records (Motion/Types), played on the boards of
-- src/plc_iface.cpp with every mutex granted and every write done.
use bisso_e350_controller.Base.{ℕ, ◌<◌, ◌≡◌, refl, ◌∙◌, Bool, true, false, List, [], ◌∷◌, arith}
use bisso_e350_controller.Motion.Types.{
  Context, Axis, Shared, error, Output, drive, clear_all, speed, begin_transaction, end_transaction,
  is_driving, no_axis,
}
use bisso_e350_controller.Motion.Fsm.{transition_to}
use bisso_e350_controller.Motion.Control.{transition_all, Motion, start_axis, motion_emergency_stop}
use bisso_e350_controller.Motion.EmergencyStop.{emergency_stop_halts}
use bisso_e350_controller.Plc.Outputs.{
  Register, written, Plc, write_output, write_aux, change, publish, select_axis, point, engage,
  plc_set_axis_select, plc_set_direction, plc_set_speed, write_both, plc_clear_all_outputs,
  plc_commit_outputs, plc_begin_transaction, plc_end_transaction, motion_set_plc_axis_direction,
}

-- `clear_all` is the call with 255 as the axis.
unfoldable pub play : Output → Plc → Plc
unfolding motion_set_plc_axis_direction plc_set_speed plc_begin_transaction plc_end_transaction
play (drive axis is_plus) p =
    motion_set_plc_axis_direction true written true written axis true is_plus p
play clear_all p = motion_set_plc_axis_direction true written true written no_axis false false p
play (speed profile) p = plc_set_speed true written profile p
play begin_transaction p = plc_begin_transaction p
play end_transaction p = plc_end_transaction true written written p
play _ p = p

-- The outputs are listed with the latest first.
unfoldable pub play_all : List Output → Plc → Plc
play_all [] p = p
play_all (o ∷ os) p = play o (play_all os p)

-- Whether a transaction is open behind the outputs.
abbrev pub open_batch : List Output → Bool
open_batch [] = false
open_batch (begin_transaction ∷ os) = true
open_batch (end_transaction ∷ os) = false
open_batch (_ ∷ os) = open_batch os

-- No axis is selected and no direction is set.
abbrev pub IsStill : Register → Type 0
IsStill r =
    (r.axis_x_select ≡ true)
    × (r.axis_y_select ≡ true)
    × (r.axis_z_select ≡ true)
    × (r.dir_positive ≡ true)
    × (r.dir_negative ≡ true)

-- What the boards have in common with the outputs played on them.
pub record Tracks (os : List Output) (p : Plc) : Type 0 where
  pub present : p.hardware_present ≡ true
  pub batch : p.in_transaction ≡ open_batch os
  pub in_step : open_batch os ≡ false → p.board ≡ p.shadow_register
  pub still : is_driving os ≡ false → IsStill p.shadow_register

step-Tracks : (o : Output) (os : List Output) (p : Plc) → Tracks os p → Tracks (o ∷ os) (play o p)
unfolding play change publish write_output write_aux write_both plc_set_axis_select
    plc_set_direction plc_clear_all_outputs plc_commit_outputs engage
step-Tracks clear_all os p t = ground arith
step-Tracks (drive axis is_plus) os p t = ground arith
step-Tracks (speed profile) os p t = ground arith
step-Tracks begin_transaction os p t = ground arith
step-Tracks end_transaction os p t = ground arith
step-Tracks _ os p t = ground arith

-- Boards that were found, with no transaction open, in step and still.
abbrev pub IsReady : Plc → Type 0
IsReady p = Tracks [] p

play-Tracks : (os : List Output) (p : Plc) → IsReady p → Tracks os (play_all os p)
unfolding play_all
play-Tracks [] p h = h
play-Tracks (o ∷ os) p h = step-Tracks o os (play_all os p) (play-Tracks os p h)

enters-batch :
    (now : ℕ) (c : Context)
    → open_batch (transition_to now error c).0.shared.outputs ≡ open_batch c.shared.outputs
unfolding transition_to
enters-batch now c = ground arith

all-batch :
    (now : ℕ) (axes : List Axis) (s : Shared)
    → open_batch (transition_all now error (λ a. true) axes s).1.outputs ≡ open_batch s.outputs
unfolding transition_all
all-batch now [] s = refl
all-batch now (x ∷ axes) s =
    let c : Context = record { axis = x; shared = s } in
    all-batch now axes (transition_to now error c).0.shared ∙ enters-batch now c

stop-batch :
    (now : ℕ) (m : Motion)
    → open_batch (motion_emergency_stop now m).shared.outputs ≡ open_batch m.shared.outputs
unfolding motion_emergency_stop
stop-batch now m = all-batch now m.axes _

-- On boards that were found still, with every mutex granted and every write done: when no
-- transaction is open, the emergency stop leaves no axis selected and no direction set on the
-- board, whatever the motion engine did before.
pub emergency_stop-IsStill :
    (now : ℕ) (m : Motion) (p : Plc)
    → IsReady p
    → open_batch m.shared.outputs ≡ false
    → IsStill (play_all (motion_emergency_stop now m).shared.outputs p).board
emergency_stop-IsStill now m p h closed =
    let os = (motion_emergency_stop now m).shared.outputs in
    let t = play-Tracks os p h in
    let (e, n, d, o) = emergency_stop_halts now m in
    rw (t.in_step (stop-batch now m ∙ closed)) (t.still o)

-- The transaction that starts an axis changes the board once, to the axis, its direction and its
-- speed; up to then the board holds what it held.
pub start-board :
    (profile axis : ℕ) (is_plus : Bool) (m : Motion) (p : Plc)
    → IsReady p
    → axis < 4
    → let before = play_all m.shared.outputs p in
      let after = play_all (start_axis profile axis is_plus m).shared.outputs p in
      (after.board ≡ point is_plus (select_axis axis (engage profile before.shadow_register)))
      × ((play (drive axis is_plus) (play (speed profile) (play begin_transaction before))).board
          ≡ before.board)
unfolding start_axis play_all play change publish write_output write_aux write_both
    plc_set_axis_select plc_set_direction plc_commit_outputs
start-board profile axis is_plus m p h lt =
    let t = play-Tracks m.shared.outputs p h in ground (arith, t.present)
