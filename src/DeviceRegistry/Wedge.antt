-- ===== src/DeviceRegistry/Wedge.antt =====
-- How the bus of src/rs485_device_registry.cpp stays busy for ever: its current device is kept by its
-- number, and registering a device moves the numbers.
use bisso_e350_controller.Base.{
  ℕ, zero, suc, ◌+◌, ◌<◌, ◌≡◌, refl, inl, inr, Bool, true, false, Bool-cases, ltb, Option, none,
  some, List, [], ◌∷◌, arith, length, get_elem?,
}
use mathlib.Core.Path.{subst}
use bisso_e350_controller.DeviceRegistry.Devices.{
  Device, Registry, rs485_max_devices, has_address, insert, fresh, register_device,
}
use bisso_e350_controller.DeviceRegistry.Bus.{
  check_timeout, rs485_update, accept_response, process_response,
}
use bisso_e350_controller.DeviceRegistry.Pending.{Waiting, IsConsistent, Waiting-at}

-- The bus is busy and its current device does not wait for a response.
record IsWedged (r : Registry) : Type 0 where
  busy : r.bus_busy ≡ true
  not_waiting :
      (d : Device)
      → get_elem? r.devices r.current_device_index ≡ some d
      → d.pending_response ≡ false

-- An update or a response, at a time and with the answers of the callbacks.
pub data Activity : Type 0 where
  poll : ℕ → Bool → Bool → Activity
  reply : ℕ → Bool → Activity

unfoldable pub act : Activity → Registry → Registry
act (poll now moving started) r = (rs485_update now moving started r).0
act (reply now success) r = (process_response now success r).0

unfoldable pub act_all : List Activity → Registry → Registry
act_all [] r = r
act_all (a ∷ activities) r = act_all activities (act a r)

still-check :
    (now : ℕ) (o : Option Device) (r : Registry)
    → ((d : Device) → o ≡ some d → d.pending_response ≡ false)
    → check_timeout now o r ≡ r
unfolding check_timeout
still-check now none r h = refl
still-check now (some d) r h = ground (arith, h d refl)

still-accept :
    (now : ℕ) (success : Bool) (o : Option Device) (r : Registry)
    → ((d : Device) → o ≡ some d → d.pending_response ≡ false)
    → (accept_response now success o r).0 ≡ r
unfolding accept_response
still-accept now success none r h = refl
still-accept now success (some d) r h = ground (arith, h d refl)

still-act : (a : Activity) (r : Registry) → IsWedged r → act a r ≡ r
unfolding act rs485_update process_response
still-act (poll now moving started) r w =
    ground
      (arith, w.busy, still-check now (get_elem? r.devices r.current_device_index) r w.not_waiting)
still-act (reply now success) r w =
    ground
      (arith, still-accept now success (get_elem? r.devices r.current_device_index) r w.not_waiting)

-- Whatever updates and responses follow, at whatever times, a wedged bus stays as it is.
wedged_forever : (activities : List Activity) (r : Registry) → IsWedged r → act_all activities r ≡ r
unfolding act_all
wedged_forever [] r w = refl
wedged_forever (a ∷ activities) r w = rw (still-act a r w, act_all) (wedged_forever activities r w)

-- In the place of a device that waits, or before it, stands one that does not.
insert-shifts :
    (x : Device) (i k : ℕ) (devices : List Device) (current d : Device)
    → x.pending_response ≡ false
    → Waiting true (i + k) i devices
    → get_elem? devices k ≡ some current
    → current.priority < x.priority
    → get_elem? (insert x devices) k ≡ some d
    → d.pending_response ≡ false
insert-shifts x i k [] current d n h at lt e = absurd (ground arith)
insert-shifts x i zero (y ∷ devices) current d n h at lt e = ground arith
insert-shifts x i (suc k) (y ∷ devices) current d n h at lt e =
    elim (Bool-cases (ltb y.priority x.priority)) [
      | inl above ↦
          let e' : get_elem? (y ∷ devices) k ≡ some d = simp above at e in
          ground (arith, Waiting-at true (i + suc k) i k (y ∷ devices) d h e')
      | inr below ↦
          let e' : get_elem? (insert x devices) k ≡ some d = simp below at e in
          let shift : i + suc k ≡ suc i + k = omega arith in
          insert-shifts x (suc i) k devices current d n
            (subst (λ (c : ℕ). Waiting true c (suc i) devices) shift h.1) at lt e'
    ]

-- Registering a device in time of a transaction takes the place of the current one from it.
register_wedges :
    (d current : Device) (r : Registry)
    → IsConsistent r
    → r.bus_busy ≡ true
    → length r.devices < rs485_max_devices
    → has_address d.slave_address r.devices ≡ false
    → get_elem? r.devices r.current_device_index ≡ some current
    → current.priority < d.priority
    → IsWedged (register_device d r).0
unfolding register_device
register_wedges d current r h b room new at lt =
    let here : r.current_device_index ≡ 0 + r.current_device_index = omega arith in
    let w : Waiting true (0 + r.current_device_index) 0 r.devices =
      subst (λ (c : ℕ). Waiting true c 0 r.devices) here (rw (← b) h.waiting) in
    let added : register_device d r ≡ (record r { devices = insert (fresh d) r.devices }, true) =
      ground arith in
    rw added (record {
      busy = b;
      not_waiting =
          λ e. insert-shifts (fresh d) 0 r.current_device_index r.devices current e refl w at lt;
    })

-- When a device is registered while a consistent bus is busy, with a higher priority than the current
-- device, fewer than 8 devices and none of its address being registered, no sequence of updates and
-- responses changes anything any more: the bus stays busy and no device is polled again.
pub register_stops_bus :
    (activities : List Activity) (d current : Device) (r : Registry)
    → IsConsistent r
    → r.bus_busy ≡ true
    → length r.devices < rs485_max_devices
    → has_address d.slave_address r.devices ≡ false
    → get_elem? r.devices r.current_device_index ≡ some current
    → current.priority < d.priority
    → act_all activities (register_device d r).0 ≡ (register_device d r).0
register_stops_bus activities d current r h b room new at lt =
    wedged_forever activities (register_device d r).0
      (register_wedges d current r h b room new at lt)
