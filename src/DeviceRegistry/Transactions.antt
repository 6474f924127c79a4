-- ===== src/DeviceRegistry/Transactions.antt =====
-- Sequences of calls of src/rs485_device_registry.cpp on the bus, and how a transaction ends.
use bisso_e350_controller.Base.{
  branch, branches, ℕ, ◌+◌, ◌≤◌, ◌<◌, ◌≡◌, refl, inl, inr, Bool, true, false, not, ◌||◌, ltb, leb,
  u32, elapsed, Option, none, some, Option-cases, List, [], ◌∷◌, arith, length, get_elem?,
  get_elem?-lt,
}
use bisso_e350_controller.DeviceRegistry.Devices.{
  Device, Registry, register_device, unregister_device,
}
use bisso_e350_controller.DeviceRegistry.Membership.{join-IsConsistent, leave-IsConsistent}
use bisso_e350_controller.DeviceRegistry.Bus.{
  response_timeout_ms, inter_frame_delay_ms, waited, select_next_device, on_device, check_timeout,
  rs485_update, answered, accept_response, process_response, request_immediate_poll,
  set_device_enabled, reset_error_counters, check_watchdog, clear_watchdog_alert, set_bus_paused,
}
use bisso_e350_controller.DeviceRegistry.Selection.{select_next_device_lem}
use bisso_e350_controller.DeviceRegistry.Pending.{
  Waiting, IsConsistent, free-Waiting, keep-Waiting, length-on_device, reset-Waiting,
  unpend-Waiting, timeout-IsConsistent, poll-IsConsistent, Waiting-at,
}

selected-lt :
    (now : ℕ) (moving : Bool) (devices : List Device) (i : ℕ)
    → select_next_device now moving devices ≡ some i
    → i < length devices
selected-lt now moving devices i e = elim (select_next_device_lem now moving devices) [
  | inl (gone, bound) ↦ absurd (ground arith)
  | inr (k, d, f, at, due, bound) ↦
      let lt = get_elem?-lt devices k d at in let same : k ≡ i = ground arith in omega arith
]

update-IsConsistent :
    (now : ℕ) (moving started : Bool) (r : Registry)
    → IsConsistent r
    → IsConsistent (rs485_update now moving started r).0
unfolding rs485_update
update-IsConsistent now moving started r h =
    branches {A = Registry × Bool} (λ x. IsConsistent x.0) r.bus_paused _ _ h
      (branches {A = Registry × Bool} (λ x. IsConsistent x.0)
        (ltb (elapsed now r.last_switch_time_ms) inter_frame_delay_ms) _ _ h
        (branch {A = Registry × Bool} (λ x. IsConsistent x.0) r.bus_busy _ _
          (λ b. timeout-IsConsistent now (get_elem? r.devices r.current_device_index) r b h)
          (λ b.
            poll-IsConsistent now started (select_next_device now moving r.devices) r b
              (selected-lt now moving r.devices) h)))

answered-free : (success : Bool) (d : Device) → (answered success d).pending_response ≡ false
answered-free true d = refl
answered-free false d = refl

accept-IsConsistent :
    (now : ℕ) (success : Bool) (d : Option Device) (r : Registry)
    → r.bus_busy ≡ true
    → IsConsistent r
    → IsConsistent (accept_response now success d r).0
unfolding accept_response
accept-IsConsistent now success none r b h = h
accept-IsConsistent now success (some d) r b h =
    let w : Waiting true r.current_device_index 0 r.devices = rw (← b) h.waiting in
    let w' =
      free-Waiting (answered success) r.current_device_index 0 r.current_device_index r.devices
        (answered-free success) (omega arith) w in
    branches {A = Registry × Bool} (λ x. IsConsistent x.0) (not d.pending_response) _ _ h
      (branches {A = Registry × Bool} (λ x. IsConsistent x.0) success _ _
        (record { waiting = w'; present = λ e. absurd (ground arith) })
        (record { waiting = w'; present = λ e. absurd (ground arith) }))

response-IsConsistent :
    (now : ℕ) (success : Bool) (r : Registry)
    → IsConsistent r
    → IsConsistent (process_response now success r).0
unfolding process_response
response-IsConsistent now success r h =
    branch {A = Registry × Bool} (λ x. IsConsistent x.0)
      (not r.bus_busy || leb (length r.devices) r.current_device_index) _ _ (λ _. h)
      (λ n.
        accept-IsConsistent now success (get_elem? r.devices r.current_device_index) r
          (ground arith) h)

-- A call on the bus, or of the devices on it, by any task.
pub data Call : Type 0 where
  update : ℕ → Bool → Bool → Call
  response : ℕ → Bool → Call
  immediate : ℕ → Call
  enable : ℕ → Bool → Call
  reset : Call
  watchdog : ℕ → Call
  clear_alert : ℕ → Call
  pause : ℕ → Bool → Call
  join : Device → Call
  leave : ℕ → Call

unfoldable pub perform : Call → Registry → Registry
perform (update now moving started) r = (rs485_update now moving started r).0
perform (response now success) r = (process_response now success r).0
perform (immediate i) r = (request_immediate_poll i r).0
perform (enable i enabled) r = set_device_enabled i enabled r
perform reset r = reset_error_counters r
perform (watchdog now) r = (check_watchdog now r).0
perform (clear_alert now) r = clear_watchdog_alert now r
perform (pause now paused) r = set_bus_paused now paused r
perform (join d) r = (register_device d r).0
perform (leave id) r = (unregister_device id r).0

unfoldable pub perform_all : List Call → Registry → Registry
perform_all [] r = r
perform_all (c ∷ calls) r = perform_all calls (perform c r)

-- Devices join and leave while the bus is free.
abbrev pub Allowed : Call → Registry → Type 0
Allowed (join d) r = r.bus_busy ≡ false
Allowed (leave id) r = r.bus_busy ≡ false
Allowed _ r = Unit {0}

abbrev pub AllAllowed : List Call → Registry → Type 0
AllAllowed [] r = Unit {0}
AllAllowed (c ∷ calls) r = Allowed c r × AllAllowed calls (perform c r)

kept-IsConsistent :
    (f : Device → Device) (i : ℕ) (r : Registry)
    → ((d : Device) → (f d).pending_response ≡ d.pending_response)
    → IsConsistent r
    → IsConsistent (record r { devices = on_device i f r.devices })
kept-IsConsistent f i r n h = record {
  waiting = keep-Waiting f r.bus_busy r.current_device_index 0 i r.devices n h.waiting;
  present = λ e. rw (length-on_device i f r.devices) (h.present e);
}

immediate-IsConsistent :
    (i : ℕ) (r : Registry) → IsConsistent r → IsConsistent (request_immediate_poll i r).0
unfolding request_immediate_poll
immediate-IsConsistent i r h = elim (Option-cases (get_elem? r.devices i)) [
  | inl e ↦ rw (e, request_immediate_poll) h
  | inr (d, e) ↦
      rw (e, request_immediate_poll)
        (branches {A = Registry × Bool} (λ x. IsConsistent x.0) (not d.enabled || r.bus_busy) _ _ h
          (kept-IsConsistent (λ d. record d { last_poll_time_ms = 0 }) i r (λ d. refl) h))
]

perform-IsConsistent :
    (c : Call) (r : Registry) → Allowed c r → IsConsistent r → IsConsistent (perform c r)
unfolding perform set_device_enabled reset_error_counters clear_watchdog_alert set_bus_paused
    check_watchdog
perform-IsConsistent (update now moving started) r a h = update-IsConsistent now moving started r h
perform-IsConsistent (response now success) r a h = response-IsConsistent now success r h
perform-IsConsistent (immediate i) r a h = immediate-IsConsistent i r h
perform-IsConsistent (enable i enabled) r a h =
    kept-IsConsistent (λ d. record d { enabled = enabled }) i r (λ d. refl) h
perform-IsConsistent reset r a h =
    let (w, l) = reset-Waiting r.bus_busy r.current_device_index 0 r.devices h.waiting in
    record { waiting = w; present = λ e. rw l (h.present e) }
perform-IsConsistent (watchdog now) r a h = ground (arith, h.waiting, h.present)
perform-IsConsistent (clear_alert now) r a h = record { waiting = h.waiting; present = h.present }
perform-IsConsistent (pause now true) r a h = record {
  waiting = unpend-Waiting r.current_device_index 0 r.devices;
  present = λ e. absurd (ground arith);
}
perform-IsConsistent (pause now false) r a h = record { waiting = h.waiting; present = h.present }
perform-IsConsistent (join d) r free h = join-IsConsistent d r free h
perform-IsConsistent (leave id) r free h = leave-IsConsistent id r free h

-- After any sequence of calls on the bus in which devices are registered and unregistered only while
-- the bus is free, a device waits for a response exactly if the bus is busy and it is the current
-- device, which then is registered, when it was so before.
pub perform_all-IsConsistent :
    (calls : List Call) (r : Registry)
    → AllAllowed calls r
    → IsConsistent r
    → IsConsistent (perform_all calls r)
unfolding perform_all
perform_all-IsConsistent [] r a h = h
perform_all-IsConsistent (c ∷ calls) r (a, all) h =
    perform_all-IsConsistent calls (perform c r) all (perform-IsConsistent c r a h)

current-pending :
    (r : Registry) (d : Device)
    → IsConsistent r
    → r.bus_busy ≡ true
    → get_elem? r.devices r.current_device_index ≡ some d
    → d.pending_response ≡ true
current-pending r d h b at = ground (
  arith,
  Waiting-at r.bus_busy r.current_device_index 0 r.current_device_index r.devices d h.waiting at,
)

busy-update :
    (now : ℕ) (moving started : Bool) (r : Registry)
    → r.bus_paused ≡ false
    → r.bus_busy ≡ true
    → inter_frame_delay_ms ≤ elapsed now r.last_switch_time_ms
    → rs485_update now moving started r
      ≡ (check_timeout now (get_elem? r.devices r.current_device_index) r, false)
unfolding rs485_update
busy-update now moving started r p b far = ground arith

-- An update of a busy, consistent bus that is not paused frees it, 5 ms or more behind the switch
-- and more than 500 ms behind the poll, and counts the error.
pub timeout_frees :
    (now : ℕ) (moving started : Bool) (r : Registry) (d : Device)
    → IsConsistent r
    → r.bus_paused ≡ false
    → r.bus_busy ≡ true
    → get_elem? r.devices r.current_device_index ≡ some d
    → inter_frame_delay_ms ≤ elapsed now r.last_switch_time_ms
    → response_timeout_ms < waited now d
    → let r' = (rs485_update now moving started r).0 in
      (r'.bus_busy ≡ false) × (r'.total_errors ≡ u32 (r.total_errors + 1))
unfolding check_timeout
timeout_frees now moving started r d h p b at far late =
    let pending = current-pending r d h b at in
    rw (busy-update now moving started r p b far, at) (ground arith)
