-- ===== src/DeviceRegistry/Tests.antt =====
-- The theorems on the scheduler at a bus with an encoder and a current sensor.
use bisso_e350_controller.Base.{
  ℕ, ◌≡◌, refl, ◌⊎◌, true, false, none, some, List, [], ◌∷◌, arith, All, get_elem?,
}
use bisso_e350_controller.DeviceRegistry.Devices.{Device, Registry, unregister_device}
use bisso_e350_controller.DeviceRegistry.Bus.{is_due, score, select_next_device}
use bisso_e350_controller.DeviceRegistry.Order.{
  IsOrdered, register, unregister, apply_all, apply_all-IsOrdered,
}
use bisso_e350_controller.DeviceRegistry.Selection.{NotBehind, select_next_device_lem}
use bisso_e350_controller.DeviceRegistry.Pending.{IsConsistent}
use bisso_e350_controller.DeviceRegistry.Transactions.{
  Call, update, response, immediate, enable, reset, pause, join, leave, perform, AllAllowed,
  perform_all, perform_all-IsConsistent,
}
use bisso_e350_controller.DeviceRegistry.Wedge.{Activity, poll, reply}

abbrev encoder : Device
encoder = record {
  id = 1;
  kind = 0;
  slave_address = 1;
  poll_interval_ms = 50;
  priority = 10;
  enabled = true;
  last_poll_time_ms = 0;
  poll_count = 0;
  error_count = 0;
  consecutive_errors = 0;
  pending_response = false;
}

abbrev sensor : Device
sensor = record encoder {
  id = 2;
  kind = 1;
  slave_address = 2;
  poll_interval_ms = 1000;
  priority = 3;
}

abbrev inverter : Device
inverter = record encoder { id = 3; kind = 2; slave_address = 3; priority = 20 }

abbrev idle_bus : Registry
idle_bus = record {
  devices = encoder ∷ sensor ∷ [];
  current_device_index = 0;
  last_switch_time_ms = 0;
  baud_rate = 9600;
  bus_busy = false;
  total_transactions = 0;
  total_errors = 0;
  last_successful_response_ms = 0;
  watchdog_alert_active = false;
  bus_paused = false;
}

idle_bus-IsConsistent : IsConsistent idle_bus
idle_bus-IsConsistent = record {
  waiting = (refl, (refl, tt));
  present = λ e. absurd (ground arith);
}

apply_all-IsOrdered_example :
    IsOrdered
      (apply_all (register inverter ∷ unregister 1 ∷ register encoder ∷ []) idle_bus).devices
apply_all-IsOrdered_example =
    apply_all-IsOrdered (register inverter ∷ unregister 1 ∷ register encoder ∷ []) idle_bus
      (record {
        few = omega arith;
        sorted = ((omega arith, tt), (tt, tt));
        distinct = (refl, (refl, tt));
      })

select_next_device_lem_example :
    ((select_next_device 2000 true (encoder ∷ sensor ∷ []) ≡ none)
      × All (NotBehind 2000 true 0) (encoder ∷ sensor ∷ []))
    ⊎ ((k : ℕ) × (d : Device) × (select_next_device 2000 true (encoder ∷ sensor ∷ []) ≡ some k)
        × (get_elem? (encoder ∷ sensor ∷ []) k ≡ some d)
        × (is_due 2000 true d ≡ true)
        × All (NotBehind 2000 true (score 2000 d)) (encoder ∷ sensor ∷ []))
select_next_device_lem_example = select_next_device_lem 2000 true (encoder ∷ sensor ∷ [])

abbrev calls : List Call
calls =
    leave 2
    ∷ join inverter
    ∷ update 2100 true true
    ∷ response 2110 true
    ∷ update 2120 false true
    ∷ immediate 1
    ∷ enable 0 false
    ∷ update 9000 false true
    ∷ reset
    ∷ pause 9010 true
    ∷ []

calls-AllAllowed : AllAllowed calls idle_bus
unfolding perform unregister_device
calls-AllAllowed = (refl, (refl, (tt, (tt, (tt, (tt, (tt, (tt, (tt, (tt, tt))))))))))

perform_all-IsConsistent_example : IsConsistent (perform_all calls idle_bus)
perform_all-IsConsistent_example =
    perform_all-IsConsistent calls idle_bus calls-AllAllowed idle_bus-IsConsistent

abbrev activities : List Activity
activities = poll 2600 false true ∷ reply 2700 true ∷ poll 9000 false true ∷ []
