-- ===== src/DeviceRegistry/Devices.antt =====
-- The registered devices of src/rs485_device_registry.cpp. `id` stands for the pointer to the device;
-- the names and the callbacks are left out. The fields of the registry that the count of devices
-- bounds are one list.
use bisso_e350_controller.Base.{
  ℕ, Bool, true, false, ◌||◌, if◌then◌else◌, ltb, leb, ◌==◌, Option, none, some, List, [], ◌∷◌,
  length,
}

abbrev pub rs485_max_devices : ℕ
rs485_max_devices = 8

pub record Device : Type 0 where
  pub id : ℕ
  pub kind : ℕ
  pub slave_address : ℕ
  pub poll_interval_ms : ℕ
  pub priority : ℕ
  pub enabled : Bool
  pub last_poll_time_ms : ℕ
  pub poll_count : ℕ
  pub error_count : ℕ
  pub consecutive_errors : ℕ
  pub pending_response : Bool

pub record Registry : Type 0 where
  pub devices : List Device
  pub current_device_index : ℕ
  pub last_switch_time_ms : ℕ
  pub baud_rate : ℕ
  pub bus_busy : Bool
  pub total_transactions : ℕ
  pub total_errors : ℕ
  pub last_successful_response_ms : ℕ
  pub watchdog_alert_active : Bool
  pub bus_paused : Bool

abbrev pub has_address : ℕ → List Device → Bool
has_address address [] = false
has_address address (d ∷ devices) = d.slave_address == address || has_address address devices

-- In front of the first device of a lower priority.
abbrev pub insert : Device → List Device → List Device
insert device [] = device ∷ []
insert device (d ∷ devices) =
    if ltb d.priority device.priority then device ∷ d ∷ devices else d ∷ insert device devices

-- The device with its statistics as registration leaves them.
abbrev pub fresh : Device → Device
fresh d = record d {
  last_poll_time_ms = 0;
  poll_count = 0;
  error_count = 0;
  consecutive_errors = 0;
  pending_response = false;
}

unfoldable pub register_device : Device → Registry → Registry × Bool
register_device device r =
    if leb rs485_max_devices (length r.devices)
    then (r, false)
    else if has_address device.slave_address r.devices
    then (r, false)
    else (record r { devices = insert (fresh device) r.devices }, true)

-- The devices without the first one of a pointer, if there is one.
abbrev pub remove : ℕ → List Device → Option (List Device)
remove id [] = none
remove id (d ∷ devices) =
    let rest = remove id devices in
    if d.id == id then some devices else elim rest [ none ↦ none | some ds ↦ some (d ∷ ds) ]

unfoldable pub unregister_device : ℕ → Registry → Registry × Bool
unregister_device id r = elim (remove id r.devices) [
  | none ↦ (r, false)
  | some ds ↦ (record r { devices = ds }, true)
]

-- `rs485FindDevice`
unfoldable pub find_kind : ℕ → List Device → Option Device
find_kind kind [] = none
find_kind kind (d ∷ devices) = if d.kind == kind then some d else find_kind kind devices

-- `rs485FindDeviceByAddress`
unfoldable pub find_address : ℕ → List Device → Option Device
find_address address [] = none
find_address address (d ∷ devices) =
    if d.slave_address == address then some d else find_address address devices
