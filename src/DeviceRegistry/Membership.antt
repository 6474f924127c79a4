-- ===== src/DeviceRegistry/Membership.antt =====
-- Registering and unregistering in src/rs485_device_registry.cpp while the bus is free.
use bisso_e350_controller.Base.{
  branches, ℕ, ◌≡◌, refl, sym, inl, inr, Bool, false, leb, Option-cases, List, arith, length,
}
use mathlib.Core.Path.{subst}
use bisso_e350_controller.DeviceRegistry.Devices.{
  Device, Registry, rs485_max_devices, has_address, insert, fresh, register_device, remove,
  unregister_device,
}
use bisso_e350_controller.DeviceRegistry.Pending.{
  Waiting, IsConsistent, insert-Waiting, remove-Waiting,
}

free-IsConsistent :
    (devices : List Device) (r : Registry)
    → r.bus_busy ≡ false
    → Waiting false r.current_device_index 0 devices
    → IsConsistent (record r { devices = devices })
free-IsConsistent devices r free w = record {
  waiting = subst (λ b. Waiting b r.current_device_index 0 devices) (sym free) w;
  present = λ e. absurd (ground arith);
}

registry-Waiting :
    (r : Registry)
    → r.bus_busy ≡ false
    → IsConsistent r
    → Waiting false r.current_device_index 0 r.devices
registry-Waiting r free h = subst (λ b. Waiting b r.current_device_index 0 r.devices) free h.waiting

pub join-IsConsistent :
    (d : Device) (r : Registry)
    → r.bus_busy ≡ false
    → IsConsistent r
    → IsConsistent (register_device d r).0
unfolding register_device
join-IsConsistent d r free h =
    branches {A = Registry × Bool} (λ x. IsConsistent x.0)
      (leb rs485_max_devices (length r.devices)) _ _ h
      (branches {A = Registry × Bool} (λ x. IsConsistent x.0)
        (has_address d.slave_address r.devices) _ _ h
        (free-IsConsistent (insert (fresh d) r.devices) r free (
          insert-Waiting (fresh d) r.current_device_index 0 r.devices refl
            (registry-Waiting r free h))))

pub leave-IsConsistent :
    (id : ℕ) (r : Registry)
    → r.bus_busy ≡ false
    → IsConsistent r
    → IsConsistent (unregister_device id r).0
unfolding unregister_device
leave-IsConsistent id r free h = elim (Option-cases (remove id r.devices)) [
  | inl e ↦ rw (e, unregister_device) h
  | inr (left, e) ↦
      rw (e, unregister_device)
        (free-IsConsistent left r free
          (remove-Waiting id r.current_device_index 0 r.devices left e (registry-Waiting r free h)))
]
