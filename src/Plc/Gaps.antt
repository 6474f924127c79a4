-- ===== src/Plc/Gaps.antt =====
-- When a clearing of the outputs does not reach the boards of src/plc_iface.cpp, and what its other
-- functions get wrong.
use bisso_e350_controller.Base.{ℕ, ◌-◌, ◌≤◌, ◌<◌, ◌≡◌, refl, Bool, true, false, not, ◌&&◌, arith}
use bisso_e350_controller.Plc.Outputs.{
  Register, all_off, Write, is_written, written, failed, bus_busy, Plc, write_output, write_aux,
  change, publish, select_axis, point, engage, plc_set_axis_select, plc_set_direction,
  plc_set_speed, write_both, plc_clear_all_outputs, plc_commit_outputs, plc_begin_transaction,
  plc_end_transaction, get_speed_profile, motion_set_plc_axis_direction,
}

aux-board : (b : Register) (w : Write) (p : Plc) → (write_aux b w p).board ≡ p.board
unfolding write_aux
aux-board b bus_busy p = refl
aux-board b failed p = ground arith
aux-board b written p = ground arith

-- A clearing of all outputs leaves the first board as it was when the shadow mutex is not granted,
-- when a transaction is open, or when the write fails.
pub clear_lost :
    (acquired : Bool) (w w' : Write) (p : Plc)
    → (acquired && not p.in_transaction && is_written w) ≡ false
    → (plc_clear_all_outputs acquired w w' p).board ≡ p.board
unfolding plc_clear_all_outputs write_both write_output write_aux
clear_lost acquired written w' p h = ground arith
clear_lost acquired bus_busy w' p h = ground (arith, aux-board all_off w')
clear_lost acquired failed w' p h = ground (arith, aux-board all_off w')

-- When the outputs are cleared between the speed and the direction of a transaction that starts an
-- axis, every mutex granted and every write done, the clearing does not reach the board, and the
-- end of the transaction selects the axis and sets its direction.
pub batch_overtakes_clear :
    (profile axis : ℕ) (is_plus : Bool) (p : Plc)
    → p.hardware_present ≡ true
    → axis < 4
    → let begun = plc_set_speed true written profile (plc_begin_transaction p) in
      let cleared = plc_clear_all_outputs true written written begun in
      let driven =
        motion_set_plc_axis_direction true written true written axis true is_plus cleared in
      (cleared.board ≡ p.board)
      × ((plc_end_transaction true written written driven).board
          ≡ point is_plus (select_axis axis all_off))
unfolding plc_set_speed plc_begin_transaction plc_clear_all_outputs motion_set_plc_axis_direction
    plc_end_transaction change publish write_output write_aux write_both plc_set_axis_select
    plc_set_direction plc_commit_outputs
batch_overtakes_clear profile axis is_plus p here lt = ground arith

-- A task that has changed the register writes its copy behind the release of the mutex. When
-- another task clears all outputs in between, every mutex granted and every write done, the board
-- ends with the copy, while the register says that all is off.
pub copy_overtakes_clear :
    (f : Register → Register) (p : Plc)
    → p.hardware_present ≡ true
    → p.in_transaction ≡ false
    → let changed = change f p in
      let cleared = plc_clear_all_outputs true written written changed in
      let late = write_output changed.shadow_register written cleared in
      (late.board ≡ f p.shadow_register)
      × (late.shadow_register ≡ all_off)
      × (late.shadow_dirty ≡ false)
unfolding change plc_clear_all_outputs write_both write_output write_aux
copy_overtakes_clear f p here closed = ground arith

-- The speed that is read back behind the setting of a profile, the mutexes granted, is that of the
-- opposite profile: 2 for 0 and 0 for 2.
pub get-set_speed :
    (w : Write) (profile : ℕ) (p : Plc)
    → profile ≤ 2
    → get_speed_profile true (plc_set_speed true w profile p) ≡ 2 - profile
unfolding get_speed_profile plc_set_speed change publish engage write_output
get-set_speed w profile p le = ground arith

-- The fourth axis has no relay: with every mutex granted and every write done, driving it sets a
-- direction on the board with no axis selected.
pub fourth_axis_unselected :
    (is_plus : Bool) (p : Plc)
    → p.hardware_present ≡ true
    → p.in_transaction ≡ false
    → let b = (motion_set_plc_axis_direction true written true written 3 true is_plus p).board in
      (b.axis_x_select ≡ true)
      × (b.axis_y_select ≡ true)
      × (b.axis_z_select ≡ true)
      × (b.dir_positive ≡ not is_plus)
      × (b.dir_negative ≡ is_plus)
unfolding motion_set_plc_axis_direction plc_set_axis_select plc_set_direction change publish
    write_output select_axis point
fourth_axis_unselected is_plus p here closed = ground arith

-- With no transaction open and the shadow mutex granted, when the write to the first board fails and
-- that to the second is done, clearing all outputs leaves the first board as it was, and yet the
-- registers are reported as in step with the boards.
pub aux_write_hides_failure :
    (p : Plc)
    → p.hardware_present ≡ true
    → p.in_transaction ≡ false
    → let cleared = plc_clear_all_outputs true failed written p in
      (cleared.board ≡ p.board)
      × (cleared.shadow_register ≡ all_off)
      × (cleared.shadow_dirty ≡ false)
unfolding plc_clear_all_outputs write_both write_output write_aux
aux_write_hides_failure p here closed = ground arith
