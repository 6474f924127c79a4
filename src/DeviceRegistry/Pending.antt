-- ===== src/DeviceRegistry/Pending.antt =====
-- The one response that the bus of src/rs485_device_registry.cpp waits for.
use bisso_e350_controller.Base.{
  branches, ap, ◌∙◌, ℕ, zero, suc, ◌+◌, ◌<◌, ◌≡◌, refl, inl, inr, Bool, true, false, Bool-cases,
  ◌&&◌, ltb, ◌==◌, Option, none, some, Option-cases, List, [], ◌∷◌, arith, length, get_elem?, map,
}
use mathlib.Core.Path.{subst}
use bisso_e350_controller.DeviceRegistry.Devices.{Device, Registry, insert, remove}
use bisso_e350_controller.DeviceRegistry.Bus.{
  response_timeout_ms, waited, on_device, timed_out, check_timeout, polled, poll_selected,
  reset_counters, unpend,
}

-- From number `i` on, the device of number `current` waits for a response if the bus is busy, and no
-- other one does.
abbrev pub Waiting : Bool → ℕ → ℕ → List Device → Type 0
Waiting busy current i [] = Unit {0}
Waiting busy current i (d ∷ devices) =
    (d.pending_response ≡ (busy && (i == current))) × Waiting busy current (suc i) devices

pub record IsConsistent (r : Registry) : Type 0 where
  pub waiting : Waiting r.bus_busy r.current_device_index 0 r.devices
  pub present : r.bus_busy ≡ true → r.current_device_index < length r.devices

-- On a free bus the current device does not matter.
idle-Waiting :
    (current current' i : ℕ) (devices : List Device)
    → Waiting false current i devices
    → Waiting false current' i devices
idle-Waiting current current' i [] h = tt
idle-Waiting current current' i (d ∷ devices) h =
    (h.0, idle-Waiting current current' (suc i) devices h.1)

-- Nor do the numbers of the devices.
renumber-Waiting :
    (current i j : ℕ) (devices : List Device)
    → Waiting false current i devices
    → Waiting false current j devices
renumber-Waiting current i j [] h = tt
renumber-Waiting current i j (d ∷ devices) h =
    (h.0, renumber-Waiting current (suc i) (suc j) devices h.1)

-- Behind the current device.
past-Waiting :
    (busy busy' : Bool) (current i : ℕ) (devices : List Device)
    → current < i
    → Waiting busy current i devices
    → Waiting busy' current i devices
past-Waiting busy busy' current i [] lt h = tt
past-Waiting busy busy' current i (d ∷ devices) lt h =
    (ground (arith, h.0), past-Waiting busy busy' current (suc i) devices (omega arith) h.1)

-- The current device of a busy bus gets its response, or none in time.
pub free-Waiting :
    (f : Device → Device) (current i k : ℕ) (devices : List Device)
    → ((d : Device) → (f d).pending_response ≡ false)
    → i + k ≡ current
    → Waiting true current i devices
    → Waiting false current i (on_device k f devices)
free-Waiting f current i k [] n e h = tt
free-Waiting f current i zero (d ∷ devices) n e h =
    (n d, past-Waiting true false current (suc i) devices (omega arith) h.1)
free-Waiting f current i (suc k) (d ∷ devices) n e h =
    (ground (arith, h.0), free-Waiting f current (suc i) k devices n (omega arith) h.1)

-- A device of a free bus is polled.
poll-Waiting :
    (f : Device → Device) (current i k : ℕ) (devices : List Device)
    → ((d : Device) → (f d).pending_response ≡ true)
    → i + k ≡ current
    → Waiting false current i devices
    → Waiting true current i (on_device k f devices)
poll-Waiting f current i k [] n e h = tt
poll-Waiting f current i zero (d ∷ devices) n e h =
    (ground (arith, n d), past-Waiting false true current (suc i) devices (omega arith) h.1)
poll-Waiting f current i (suc k) (d ∷ devices) n e h =
    (ground (arith, h.0), poll-Waiting f current (suc i) k devices n (omega arith) h.1)

-- A change of a device that leaves its response alone.
pub keep-Waiting :
    (f : Device → Device) (busy : Bool) (current i k : ℕ) (devices : List Device)
    → ((d : Device) → (f d).pending_response ≡ d.pending_response)
    → Waiting busy current i devices
    → Waiting busy current i (on_device k f devices)
keep-Waiting f busy current i k [] n h = tt
keep-Waiting f busy current i zero (d ∷ devices) n h = (n d ∙ h.0, h.1)
keep-Waiting f busy current i (suc k) (d ∷ devices) n h =
    (h.0, keep-Waiting f busy current (suc i) k devices n h.1)

pub length-on_device :
    (k : ℕ) (f : Device → Device) (devices : List Device)
    → length (on_device k f devices) ≡ length devices
length-on_device k f [] = refl
length-on_device zero f (d ∷ devices) = refl
length-on_device (suc k) f (d ∷ devices) = ap suc (length-on_device k f devices)

pub reset-Waiting :
    (busy : Bool) (current i : ℕ) (devices : List Device)
    → Waiting busy current i devices
    → Waiting busy current i (map reset_counters devices)
      × (length (map reset_counters devices) ≡ length devices)
reset-Waiting busy current i [] h = (tt, refl)
reset-Waiting busy current i (d ∷ devices) h =
    let (w, l) = reset-Waiting busy current (suc i) devices h.1 in ((h.0, w), ap suc l)

-- A device that waits for nothing joins a free bus, in front of the first one of a lower priority.
pub insert-Waiting :
    (x : Device) (current i : ℕ) (devices : List Device)
    → x.pending_response ≡ false
    → Waiting false current i devices
    → Waiting false current i (insert x devices)
insert-Waiting x current i [] n h = (n, tt)
insert-Waiting x current i (d ∷ devices) n h =
    branches (Waiting false current i) (ltb d.priority x.priority) _ _
      (n, renumber-Waiting current i (suc i) (d ∷ devices) h)
      (h.0, insert-Waiting x current (suc i) devices n h.1)

-- A device leaves a free bus.
pub remove-Waiting :
    (id current i : ℕ) (devices left : List Device)
    → remove id devices ≡ some left
    → Waiting false current i devices
    → Waiting false current i left
remove-Waiting id current i [] left e h = absurd (ground arith)
remove-Waiting id current i (d ∷ devices) left e h = elim (Bool-cases (d.id == id)) [
  | inl here ↦
      let g : devices ≡ left = ground arith in
      subst (Waiting false current i) g (renumber-Waiting current (suc i) i devices h.1)
  | inr other ↦ elim (Option-cases (remove id devices)) [
    | inl gone ↦ absurd (ground arith)
    | inr (rest, f) ↦
        let g : d ∷ rest ≡ left = ground arith in
        subst (Waiting false current i) g
          (h.0, remove-Waiting id current (suc i) devices rest f h.1)
  ]
]

pub unpend-Waiting :
    (current i : ℕ) (devices : List Device) → Waiting false current i (map unpend devices)
unpend-Waiting current i [] = tt
unpend-Waiting current i (d ∷ devices) = (refl, unpend-Waiting current (suc i) devices)

pub timeout-IsConsistent :
    (now : ℕ) (d : Option Device) (r : Registry)
    → r.bus_busy ≡ true
    → IsConsistent r
    → IsConsistent (check_timeout now d r)
unfolding check_timeout
timeout-IsConsistent now none r b h = h
timeout-IsConsistent now (some d) r b h =
    let w : Waiting true r.current_device_index 0 r.devices = rw (← b) h.waiting in
    branches IsConsistent (d.pending_response && ltb response_timeout_ms (waited now d)) _ _
      (record {
        waiting =
            free-Waiting timed_out r.current_device_index 0 r.current_device_index r.devices
              (λ d. refl) (omega arith) w;
        present = λ e. absurd (ground arith);
      })
      h

pub poll-IsConsistent :
    (now : ℕ) (started : Bool) (next : Option ℕ) (r : Registry)
    → r.bus_busy ≡ false
    → ((i : ℕ) → next ≡ some i → i < length r.devices)
    → IsConsistent r
    → IsConsistent (poll_selected now started next r).0
unfolding poll_selected
poll-IsConsistent now started none r b lt h = h
poll-IsConsistent now started (some i) r b lt h =
    let w : Waiting false r.current_device_index 0 r.devices = rw (← b) h.waiting in
    let w' = idle-Waiting r.current_device_index i 0 r.devices w in
    branches {A = Registry × Bool} (λ x. IsConsistent x.0) started _ _
      (record {
        waiting = poll-Waiting (polled now) i 0 i r.devices (λ d. refl) (omega arith) w';
        present = λ e. rw (length-on_device i (polled now) r.devices) (lt i refl);
      })
      (record { waiting = rw b w'; present = λ e. absurd (ground arith) })

pub Waiting-at :
    (busy : Bool) (current i k : ℕ) (devices : List Device) (d : Device)
    → Waiting busy current i devices
    → get_elem? devices k ≡ some d
    → d.pending_response ≡ (busy && (i + k == current))
Waiting-at busy current i k [] d h e = absurd (ground arith)
Waiting-at busy current i zero (x ∷ devices) d h e = ground (arith, h.0)
Waiting-at busy current i (suc k) (x ∷ devices) d h e =
    let shift : suc i + k ≡ i + suc k = omega arith in
    rw (← shift) (Waiting-at busy current (suc i) k devices d h.1 e)
