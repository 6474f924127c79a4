-- ===== src/Plc/Interlock.antt =====
-- The relays of src/plc_iface.cpp that exclude one another: at most one axis is selected, one
-- direction is set and one speed is engaged.
use bisso_e350_controller.Base.{
  branch, ℕ, ◌≡◌, refl, Bool, true, false, not, ◌&&◌, ◌||◌, if◌then◌else◌, List, [], ◌∷◌, arith,
  ltb,
}
use bisso_e350_controller.Plc.Outputs.{
  Register, all_off, Write, bus_busy, failed, written, Plc, write_output, write_aux, give_up,
  change, publish, select_axis, point, engage, plc_set_axis_select, plc_set_direction,
  plc_set_speed, write_both, plc_clear_all_outputs, plc_commit_outputs, plc_begin_transaction,
  plc_end_transaction, plc_set_aux_relay, write_bit,
}

-- At most one of the three bits is 0.
abbrev pub at_most_one : Bool → Bool → Bool → Bool
at_most_one a b c = (a && b) || (a && c) || (b && c)

abbrev pub IsExclusive : Register → Type 0
IsExclusive r =
    (at_most_one r.axis_x_select r.axis_y_select r.axis_z_select ≡ true)
    × ((r.dir_positive || r.dir_negative) ≡ true)
    × (at_most_one r.speed_fast r.speed_medium r.speed_slow ≡ true)

-- The register and what the board received.
pub record IsLocked (p : Plc) : Type 0 where
  pub in_shadow : IsExclusive p.shadow_register
  pub on_board : IsExclusive p.board

-- The calls of the other components, with what they meet. A relay of the first bank that is set by
-- its number is left out.
pub data Call : Type 0 where
  axis_select : Bool → Write → ℕ → Call
  direction : Bool → Write → Bool → Call
  set_speed : Bool → Write → ℕ → Call
  clear_all : Bool → Write → Write → Call
  commit : Bool → Write → Write → Call
  begin_batch : Call
  end_batch : Bool → Write → Write → Call
  aux_relay : Bool → Write → ℕ → Bool → Call

unfoldable pub perform : Call → Plc → Plc
perform (axis_select acquired w axis) p = plc_set_axis_select acquired w axis p
perform (direction acquired w positive) p = plc_set_direction acquired w positive p
perform (set_speed acquired w profile) p = plc_set_speed acquired w profile p
perform (clear_all acquired w w') p = plc_clear_all_outputs acquired w w' p
perform (commit acquired w w') p = plc_commit_outputs acquired w w' p
perform begin_batch p = plc_begin_transaction p
perform (end_batch acquired w w') p = plc_end_transaction acquired w w' p
perform (aux_relay acquired w bit state) p = plc_set_aux_relay acquired w bit state p

unfoldable pub perform_all : List Call → Plc → Plc
perform_all [] p = p
perform_all (c ∷ calls) p = perform_all calls (perform c p)

select-IsExclusive : (axis : ℕ) (r : Register) → IsExclusive r → IsExclusive (select_axis axis r)
unfolding select_axis
select-IsExclusive axis r h = ground arith

point-IsExclusive :
    (positive : Bool) (r : Register) → IsExclusive r → IsExclusive (point positive r)
unfolding point
point-IsExclusive positive r h = ground arith

engage-IsExclusive : (profile : ℕ) (r : Register) → IsExclusive r → IsExclusive (engage profile r)
unfolding engage
engage-IsExclusive profile r h = ground arith

write-IsLocked :
    (b : Register) (w : Write) (p : Plc)
    → IsExclusive b
    → IsLocked p
    → IsLocked (write_output b w p)
unfolding write_output
write-IsLocked b bus_busy p e h = h
write-IsLocked b failed p e h = ground (arith, h.in_shadow, h.on_board)
write-IsLocked b written p e h = ground (arith, h.in_shadow, h.on_board)

-- What a call that leaves the first register and the first board alone keeps.
aux-IsLocked : (b : Register) (w : Write) (p : Plc) → IsLocked p → IsLocked (write_aux b w p)
unfolding write_aux
aux-IsLocked b bus_busy p h = h
aux-IsLocked b failed p h = ground (arith, h.in_shadow, h.on_board)
aux-IsLocked b written p h = ground (arith, h.in_shadow, h.on_board)

change-IsLocked :
    (f : Register → Register) (acquired : Bool) (w : Write) (p : Plc)
    → IsLocked p
    → IsExclusive (f p.shadow_register)
    → IsLocked (if not acquired then give_up p else publish w (change f p))
unfolding publish change
change-IsLocked f false w p h e = record { in_shadow = h.in_shadow; on_board = h.on_board }
change-IsLocked f true w p h e =
    let changed : Plc = record p { shadow_register = f p.shadow_register } in
    let q : IsLocked changed = record { in_shadow = e; on_board = h.on_board } in
    branch IsLocked (not p.in_transaction) _ _
      (λ _. write-IsLocked (f p.shadow_register) w changed e q) (λ _. q)

both-IsLocked : (w w' : Write) (p : Plc) → IsLocked p → IsLocked (write_both w w' p)
unfolding write_both
both-IsLocked w w' p h =
    aux-IsLocked p.aux_shadow w' (write_output p.shadow_register w p)
      (write-IsLocked p.shadow_register w p h.in_shadow h)

give_up-IsLocked : (p : Plc) → IsLocked p → IsLocked (give_up p)
give_up-IsLocked p h = record { in_shadow = h.in_shadow; on_board = h.on_board }

clear-IsLocked :
    (acquired : Bool) (w w' : Write) (p : Plc)
    → IsLocked p
    → IsLocked (plc_clear_all_outputs acquired w w' p)
unfolding plc_clear_all_outputs
clear-IsLocked acquired w w' p h =
    let cleared : Plc = record p { shadow_register = all_off; aux_shadow = all_off } in
    let q : IsLocked cleared = record { in_shadow = (refl, refl, refl); on_board = h.on_board } in
    branch IsLocked (not acquired) _ _ (λ _. give_up-IsLocked p h)
      λ _. branch IsLocked (not p.in_transaction) _ _ (λ _. both-IsLocked w w' cleared q) (λ _. q)

commit-IsLocked :
    (acquired : Bool) (w w' : Write) (p : Plc)
    → IsLocked p
    → IsLocked (plc_commit_outputs acquired w w' p)
unfolding plc_commit_outputs
commit-IsLocked acquired w w' p h =
    branch IsLocked (not acquired) _ _ (λ _. give_up-IsLocked p h) (λ _. both-IsLocked w w' p h)

relay-IsLocked :
    (acquired : Bool) (w : Write) (bit : ℕ) (state : Bool) (p : Plc)
    → IsLocked p
    → IsLocked (plc_set_aux_relay acquired w bit state p)
unfolding plc_set_aux_relay
relay-IsLocked acquired w bit state p h =
    let p' : Plc = record p { aux_shadow = write_bit bit (not state) p.aux_shadow } in
    let q : IsLocked p' = record { in_shadow = h.in_shadow; on_board = h.on_board } in
    branch IsLocked (ltb 7 bit) _ _ (λ _. h)
      λ _.
        branch IsLocked (not acquired) _ _ (λ _. give_up-IsLocked p h)
          λ _.
            branch IsLocked (not p.in_transaction) _ _ (λ _. aux-IsLocked p'.aux_shadow w p' q)
              (λ _. q)

perform-IsLocked : (c : Call) (p : Plc) → IsLocked p → IsLocked (perform c p)
unfolding perform plc_set_axis_select plc_set_direction plc_set_speed plc_begin_transaction
    plc_end_transaction
perform-IsLocked (axis_select acquired w axis) p h =
    change-IsLocked (select_axis axis) acquired w p h
      (select-IsExclusive axis p.shadow_register h.in_shadow)
perform-IsLocked (direction acquired w positive) p h =
    change-IsLocked (point positive) acquired w p h
      (point-IsExclusive positive p.shadow_register h.in_shadow)
perform-IsLocked (set_speed acquired w profile) p h =
    change-IsLocked (engage profile) acquired w p h
      (engage-IsExclusive profile p.shadow_register h.in_shadow)
perform-IsLocked (clear_all acquired w w') p h = clear-IsLocked acquired w w' p h
perform-IsLocked (commit acquired w w') p h = commit-IsLocked acquired w w' p h
perform-IsLocked begin_batch p h = record { in_shadow = h.in_shadow; on_board = h.on_board }
perform-IsLocked (end_batch acquired w w') p h =
    commit-IsLocked acquired w w' (record p { in_transaction = false })
      (record { in_shadow = h.in_shadow; on_board = h.on_board })
perform-IsLocked (aux_relay acquired w bit state) p h = relay-IsLocked acquired w bit state p h

-- Whatever the sequence of calls, granted the mutexes or not, with writes that fail or not, inside
-- transactions or not: when the register and the first board hold at most one selected axis, one
-- direction and one speed, they do so after it. The calls set relays of the first bank by axis,
-- direction and speed, and not by number.
pub run-IsLocked : (calls : List Call) (p : Plc) → IsLocked p → IsLocked (perform_all calls p)
unfolding perform_all
run-IsLocked [] p h = h
run-IsLocked (c ∷ calls) p h = run-IsLocked calls (perform c p) (perform-IsLocked c p h)
