-- ===== src/DeviceRegistry/Bus.antt =====
-- The bus operations of src/rs485_device_registry.cpp. `now` is the clock, one reading for both of
-- an update; a device is named by its number in the list. `moving` is
-- `motionIsMoving()`; the answers of the callbacks of a device, `poll` and `on_response`, are inputs.
use bisso_e350_controller.Base.{
  ℕ, zero, suc, ◌+◌, ◌*◌, Bool, true, false, not, ◌&&◌, ◌||◌, if◌then◌else◌, ltb, leb, ◌==◌, u32,
  elapsed, Option, none, some, List, [], ◌∷◌, length, get_elem?, map,
}
use bisso_e350_controller.DeviceRegistry.Devices.{Device, Registry}

abbrev pub inter_frame_delay_ms : ℕ
inter_frame_delay_ms = 5

abbrev pub response_timeout_ms : ℕ
response_timeout_ms = 500

abbrev pub watchdog_timeout_ms : ℕ
watchdog_timeout_ms = 5000

abbrev pub default_baud_rate : ℕ
default_baud_rate = 9600

abbrev pub waited : ℕ → Device → ℕ
waited now d = elapsed now d.last_poll_time_ms

-- The tests of the loop of `selectNextDevice` by which a device is not passed over.
abbrev pub is_due : ℕ → Bool → Device → Bool
is_due now moving d =
    d.enabled
    && not d.pending_response
    && leb d.poll_interval_ms (waited now d)
    && not (moving && ltb d.priority 5 && ltb (waited now d) 1000)

abbrev pub score : ℕ → Device → ℕ
score now d = u32 (waited now d * (d.priority + 1))

-- The step of the loop: the device of number `i` against the best so far.
abbrev pub better : ℕ → Bool → ℕ → Device → Option ℕ × ℕ → Option ℕ × ℕ
better now moving i d best =
    if is_due now moving d && ltb best.1 (score now d) then (some i, score now d) else best

-- The loop over the devices from number `i` on: the number of the best device and the longest
-- weighted wait so far. A device is registered once, so its number stands for its pointer.
abbrev pub select_from : ℕ → Bool → ℕ → List Device → Option ℕ × ℕ → Option ℕ × ℕ
select_from now moving i [] best = best
select_from now moving i (d ∷ devices) best =
    select_from now moving (suc i) devices (better now moving i d best)

unfoldable pub select_next_device : ℕ → Bool → List Device → Option ℕ
select_next_device now moving devices = (select_from now moving 0 devices (none, 0)).0

-- A change of the device of a number, if there is one.
abbrev pub on_device : ℕ → (Device → Device) → List Device → List Device
on_device i f [] = []
on_device zero f (d ∷ devices) = f d ∷ devices
on_device (suc i) f (d ∷ devices) = d ∷ on_device i f devices

abbrev pub timed_out : Device → Device
timed_out d = record d {
  pending_response = false;
  error_count = u32 (d.error_count + 1);
  consecutive_errors = u32 (d.consecutive_errors + 1);
}

-- The part of `rs485Update` on a busy bus.
unfoldable pub check_timeout : ℕ → Option Device → Registry → Registry
check_timeout now none r = r
check_timeout now (some d) r =
    if d.pending_response && ltb response_timeout_ms (waited now d)
    then record r {
      devices = on_device r.current_device_index timed_out r.devices;
      bus_busy = false;
      total_errors = u32 (r.total_errors + 1);
    }
    else r

abbrev pub polled : ℕ → Device → Device
polled now d = record d { last_poll_time_ms = now; pending_response = true }

-- The rest of it, with the device that was selected.
unfoldable pub poll_selected : ℕ → Bool → Option ℕ → Registry → Registry × Bool
poll_selected now started none r = (r, false)
poll_selected now started (some i) r =
    if started
    then (
      record r {
        devices = on_device i (polled now) r.devices;
        current_device_index = i;
        bus_busy = true;
        last_switch_time_ms = now;
        total_transactions = u32 (r.total_transactions + 1);
      },
      true,
    )
    else (record r { current_device_index = i }, false)

unfoldable pub rs485_update : ℕ → Bool → Bool → Registry → Registry × Bool
unfolding check_timeout select_next_device poll_selected
rs485_update now moving started r =
    if r.bus_paused
    then (r, false)
    else if ltb (elapsed now r.last_switch_time_ms) inter_frame_delay_ms
    then (r, false)
    else if r.bus_busy
    then (check_timeout now (get_elem? r.devices r.current_device_index) r, false)
    else poll_selected now started (select_next_device now moving r.devices) r

abbrev pub answered : Bool → Device → Device
answered success d =
    if success
    then record d {
      pending_response = false;
      poll_count = u32 (d.poll_count + 1);
      consecutive_errors = 0;
    }
    else timed_out d

-- `success` is the answer of `on_response`, or false if there is none.
unfoldable pub accept_response : ℕ → Bool → Option Device → Registry → Registry × Bool
accept_response now success none r = (r, false)
accept_response now success (some d) r =
    let free = record r {
      devices = on_device r.current_device_index (answered success) r.devices;
      bus_busy = false;
    } in
    if not d.pending_response
    then (r, false)
    else if success
    then (record free { last_successful_response_ms = now; watchdog_alert_active = false }, true)
    else (record free { total_errors = u32 (r.total_errors + 1) }, false)

unfoldable pub process_response : ℕ → Bool → Registry → Registry × Bool
unfolding accept_response
process_response now success r =
    if not r.bus_busy || leb (length r.devices) r.current_device_index
    then (r, false)
    else accept_response now success (get_elem? r.devices r.current_device_index) r

unfoldable pub request_immediate_poll : ℕ → Registry → Registry × Bool
request_immediate_poll i r = elim (get_elem? r.devices i) [
  | none ↦ (r, false)
  | some d ↦ if not d.enabled || r.bus_busy then (r, false) else (
    record r { devices = on_device i (λ d. record d { last_poll_time_ms = 0 }) r.devices },
    true,
  )
]

unfoldable pub set_device_enabled : ℕ → Bool → Registry → Registry
set_device_enabled i enabled r = record r {
  devices = on_device i (λ d. record d { enabled = enabled }) r.devices;
}

abbrev pub reset_counters : Device → Device
reset_counters d = record d { poll_count = 0; error_count = 0; consecutive_errors = 0 }

unfoldable pub reset_error_counters : Registry → Registry
reset_error_counters r = record r {
  devices = map reset_counters r.devices;
  total_transactions = 0;
  total_errors = 0;
}

abbrev pub any_enabled : List Device → Bool
any_enabled [] = false
any_enabled (d ∷ devices) = d.enabled || any_enabled devices

unfoldable pub check_watchdog : ℕ → Registry → Registry × Bool
check_watchdog now r =
    if not (any_enabled r.devices)
    then (r, false)
    else if ltb watchdog_timeout_ms (elapsed now r.last_successful_response_ms)
    then (record r { watchdog_alert_active = true }, true)
    else (r, false)

unfoldable pub clear_watchdog_alert : ℕ → Registry → Registry
clear_watchdog_alert now r = record r {
  watchdog_alert_active = false;
  last_successful_response_ms = now;
}

abbrev pub unpend : Device → Device
unpend d = record d { pending_response = false }

unfoldable pub set_bus_paused : ℕ → Bool → Registry → Registry
set_bus_paused now paused r =
    if paused
    then record r { bus_paused = true; bus_busy = false; devices = map unpend r.devices }
    else record r { bus_paused = false; last_switch_time_ms = now }

unfoldable pub registry_init : ℕ → ℕ → Registry → Registry
registry_init now baud_rate r = record r {
  baud_rate = if baud_rate == 0 then default_baud_rate else baud_rate;
  last_switch_time_ms = now;
  last_successful_response_ms = now;
  watchdog_alert_active = false;
}

unfoldable pub set_baud_rate : ℕ → Registry → Registry × Bool
set_baud_rate baud_rate r =
    if baud_rate == 0 then (r, false) else (record r { baud_rate = baud_rate }, true)
