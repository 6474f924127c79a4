-- ===== src/Plc/Outputs.antt =====
-- src/plc_iface.cpp: the shadow registers of the relays, the writes to the boards, the transactions,
-- and the input register. A relay is on while its bit is 0. The I2C bus and the mutexes are inputs:
-- `acquired` is the answer of `plcAcquireShadowMutex`, a `Write` what a write to the bus meets.
use bisso_e350_controller.Base.{
  ℕ, ◌+◌, ◌-◌, Bool, true, false, not, ◌&&◌, ◌||◌, if◌then◌else◌, ltb, leb, ◌==◌, u32, List, [],
  ◌∷◌,
}

-- The bits of an output byte, the lowest first, by the names of the relays of bank 1.
pub record Register : Type 0 where
  pub axis_x_select : Bool
  pub axis_y_select : Bool
  pub axis_z_select : Bool
  pub dir_positive : Bool
  pub dir_negative : Bool
  pub speed_fast : Bool
  pub speed_medium : Bool
  pub speed_slow : Bool

-- 0xFF
abbrev pub all_off : Register
all_off = record {
  axis_x_select = true;
  axis_y_select = true;
  axis_z_select = true;
  dir_positive = true;
  dir_negative = true;
  speed_fast = true;
  speed_medium = true;
  speed_slow = true;
}

-- Bit `n` set to `v`, of the bits 0 to 7.
unfoldable pub write_bit : ℕ → Bool → Register → Register
write_bit n v r =
    if n == 0
    then record r { axis_x_select = v }
    else if n == 1
    then record r { axis_y_select = v }
    else if n == 2
    then record r { axis_z_select = v }
    else if n == 3
    then record r { dir_positive = v }
    else if n == 4
    then record r { dir_negative = v }
    else if n == 5
    then record r { speed_fast = v }
    else if n == 6
    then record r { speed_medium = v }
    else if n == 7
    then record r { speed_slow = v }
    else r

-- What a write to a board meets: the I2C mutex not granted, a failure, or success.
pub data Write : Type 0 where
  bus_busy failed written : Write

abbrev pub is_written : Write → Bool
is_written written = true
is_written _ = false

-- The static variables, and the bytes that the two output boards received last.
pub record Plc : Type 0 where
  pub shadow_register : Register
  pub aux_shadow : Register
  pub shadow_dirty : Bool
  pub mutex_timeout_count : ℕ
  pub in_transaction : Bool
  pub hardware_present : Bool
  pub board : Register
  pub aux_board : Register

-- `plcWriteI2C` to the first board and to the second.
unfoldable pub write_output : Register → Write → Plc → Plc
write_output byte bus_busy p = p
write_output byte failed p = if not p.hardware_present then p else record p { shadow_dirty = true }
write_output byte written p =
    if not p.hardware_present then p else record p { board = byte; shadow_dirty = false }

unfoldable pub write_aux : Register → Write → Plc → Plc
write_aux byte bus_busy p = p
write_aux byte failed p = if not p.hardware_present then p else record p { shadow_dirty = true }
write_aux byte written p =
    if not p.hardware_present then p else record p { aux_board = byte; shadow_dirty = false }

-- A call whose three attempts at the shadow mutex fail.
abbrev pub give_up : Plc → Plc
give_up p = record p { shadow_dirty = true; mutex_timeout_count = u32 (p.mutex_timeout_count + 1) }

-- A change of the first register and the write of its copy.
unfoldable pub change : (Register → Register) → Plc → Plc
change f p = record p { shadow_register = f p.shadow_register }

unfoldable pub publish : Write → Plc → Plc
unfolding write_output
publish w p = if not p.in_transaction then write_output p.shadow_register w p else p

unfoldable pub select_axis : ℕ → Register → Register
select_axis axis r =
    let cleared = record r { axis_x_select = true; axis_y_select = true; axis_z_select = true } in
    if axis == 0
    then record cleared { axis_x_select = false }
    else if axis == 1
    then record cleared { axis_y_select = false }
    else if axis == 2
    then record cleared { axis_z_select = false }
    else cleared

unfoldable pub point : Bool → Register → Register
point positive r =
    let cleared = record r { dir_positive = true; dir_negative = true } in
    if positive
    then record cleared { dir_positive = false }
    else record cleared { dir_negative = false }

unfoldable pub engage : ℕ → Register → Register
engage speed_profile r =
    let cleared = record r { speed_fast = true; speed_medium = true; speed_slow = true } in
    if speed_profile == 0
    then record cleared { speed_slow = false }
    else if speed_profile == 1
    then record cleared { speed_medium = false }
    else if speed_profile == 2
    then record cleared { speed_fast = false }
    else cleared

unfoldable pub plc_set_axis_select : Bool → Write → ℕ → Plc → Plc
unfolding change publish
plc_set_axis_select acquired w axis p =
    if not acquired then give_up p else publish w (change (select_axis axis) p)

unfoldable pub plc_set_direction : Bool → Write → Bool → Plc → Plc
unfolding change publish
plc_set_direction acquired w positive p =
    if not acquired then give_up p else publish w (change (point positive) p)

unfoldable pub plc_set_speed : Bool → Write → ℕ → Plc → Plc
unfolding change publish
plc_set_speed acquired w speed_profile p =
    if not acquired then give_up p else publish w (change (engage speed_profile) p)

-- The writes of both registers.
unfoldable pub write_both : Write → Write → Plc → Plc
unfolding write_output write_aux
write_both w w_aux p = write_aux p.aux_shadow w_aux (write_output p.shadow_register w p)

unfoldable pub plc_clear_all_outputs : Bool → Write → Write → Plc → Plc
unfolding write_both
plc_clear_all_outputs acquired w w_aux p =
    let cleared = record p { shadow_register = all_off; aux_shadow = all_off } in
    if not acquired
    then give_up p
    else if not p.in_transaction
    then write_both w w_aux cleared
    else cleared

unfoldable pub plc_commit_outputs : Bool → Write → Write → Plc → Plc
unfolding write_both
plc_commit_outputs acquired w w_aux p = if not acquired then give_up p else write_both w w_aux p

unfoldable pub plc_begin_transaction : Plc → Plc
plc_begin_transaction p = record p { in_transaction = true }

unfoldable pub plc_end_transaction : Bool → Write → Write → Plc → Plc
unfolding plc_commit_outputs
plc_end_transaction acquired w w_aux p =
    plc_commit_outputs acquired w w_aux (record p { in_transaction = false })

unfoldable pub plc_set_aux_relay : Bool → Write → ℕ → Bool → Plc → Plc
unfolding write_aux write_bit
plc_set_aux_relay acquired w bit state p =
    let p' = record p { aux_shadow = write_bit bit (not state) p.aux_shadow } in
    if ltb 7 bit
    then p
    else if not acquired
    then give_up p
    else if not p.in_transaction
    then write_aux p'.aux_shadow w p'
    else p'

unfoldable pub set_relay : Bool → Write → ℕ → Bool → Plc → Plc
unfolding change publish plc_set_aux_relay write_bit
set_relay acquired w relay_bit state p =
    if ltb 15 relay_bit
    then p
    else if not acquired
    then give_up p
    else if ltb relay_bit 8
    then publish w (change (write_bit relay_bit (not state)) p)
    else plc_set_aux_relay true w (relay_bit - 8) state p

-- Pins 116 to 131, or 1 to 16.
unfoldable pub plc_set_output : Bool → Write → ℕ → Bool → Plc → Plc
unfolding set_relay
plc_set_output acquired w pin state p =
    if leb 116 pin && leb pin 131
    then set_relay acquired w (pin - 116) state p
    else if leb 1 pin && leb pin 16
    then set_relay acquired w (pin - 1) state p
    else p

-- `elboGetSpeedProfile`
unfoldable pub get_speed_profile : Bool → Plc → ℕ
get_speed_profile acquired p =
    let r = p.shadow_register in
    if not acquired
    then 255
    else if not r.speed_fast
    then 0
    else if not r.speed_medium
    then 1
    else if not r.speed_slow
    then 2
    else 255

-- The loop of `elboInit` that looks for the boards, over what the writes of each attempt meet.
unfoldable pub detect : List (Write × Write) → Plc → Plc × Bool
unfolding write_output write_aux
detect [] p = (p, false)
detect ((written, w_aux) ∷ attempts) p =
    if p.hardware_present
    then (write_aux p.aux_shadow w_aux (write_output p.shadow_register written p), true)
    else detect attempts p
detect ((w, w_aux) ∷ attempts) p = detect attempts (write_output p.shadow_register w p)

unfoldable pub elbo_init : List (Write × Write) → Plc → Plc
unfolding detect
elbo_init attempts p =
    let (p', board_detected) = detect attempts (record p { shadow_register = all_off }) in
    record p' { hardware_present = board_detected }

-- `motionSetPLCAxisDirection` of src/motion_control.cpp, with what its two calls meet.
unfoldable pub motion_set_plc_axis_direction :
    Bool → Write → Bool → Write → ℕ → Bool → Bool → Plc → Plc
unfolding plc_set_axis_select plc_set_direction plc_clear_all_outputs
motion_set_plc_axis_direction acquired w acquired' w' axis enable is_plus p =
    if not enable || leb 4 axis
    then plc_clear_all_outputs acquired w w' p
    else plc_set_direction acquired' w' is_plus (plc_set_axis_select acquired w axis p)
