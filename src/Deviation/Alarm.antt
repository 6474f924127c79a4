-- ===== src/Deviation/Alarm.antt =====
-- When the supervision of src/encoder_deviation.cpp raises its alarm, and when it lets it go.
use bisso_e350_controller.Base.{
  ℕ, ◌≤◌, ◌<◌, ◌≡◌, refl, ◌⊎◌, inl, inr, arith, List, [], ◌∷◌, All, elapsed, All-set, All-get_or,
  ltb, get_or, Bool-cases, true,
}
use bisso_e350_controller.Deviation.Tracking.{
  Status, axis_ok, axis_deviation_warning, axis_deviation_error, Deviation, clear_alarm, Sample,
  deviation_of, tolerance_counts, recovery_ms, blank, next_status, update_axis, record_sample,
  deviation_update, axes_count,
}

-- An axis after a history of samples, the latest first.
unfoldable pub run : List Sample → Deviation → Deviation
run [] dev = dev
run (s ∷ history) dev = (update_axis s (run history dev)).0

-- The axis moves and is more than 50 counts away.
abbrev pub IsOff : Sample → Type 0
IsOff s = (s.is_moving ≡ true) × (tolerance_counts < deviation_of s)

-- Up to the latest sample of a history, the axis has been off without a break since the time `t`, at
-- which it was fine before, and no sample since then came more than its timeout behind `t`.
pub data Sustained (dev : Deviation) : ℕ → List Sample → Type 0 where
  begins :
      {t : ℕ} {s : Sample} {history : List Sample}
      → (run history dev).status ≡ axis_ok
      → IsOff s
      → t ≡ s.now
      → Sustained dev t (s ∷ history)
  goes_on :
      {t : ℕ} {s : Sample} {history : List Sample}
      → Sustained dev t history
      → IsOff s
      → elapsed s.now t ≤ s.timeout_ms
      → Sustained dev t (s ∷ history)

abbrev pub IsWatched : Deviation → Type 0
IsWatched dev =
    (dev.status ≡ axis_ok)
    ⊎ (dev.status ≡ axis_deviation_warning)
    ⊎ (dev.status ≡ axis_deviation_error)

next_status-IsWatched :
    (st : Status) (s : Sample) (dev : Deviation)
    → dev.status ≡ st
    → IsWatched dev
    → IsWatched (next_status st s dev).0
unfolding next_status
next_status-IsWatched axis_ok s dev e h = ground arith
next_status-IsWatched _ s dev e h = ground arith

-- Updates of the axes, in any order.
unfoldable pub update_all : List (ℕ × Sample) → List Deviation → List Deviation
update_all [] devs = devs
update_all ((axis, s) ∷ samples) devs = update_all samples (deviation_update axis s devs).0

update-IsWatched :
    (axis : ℕ) (s : Sample) (devs : List Deviation)
    → All IsWatched devs
    → All IsWatched (deviation_update axis s devs).0
unfolding deviation_update update_axis record_sample
update-IsWatched axis s devs h =
    let dev : Deviation = get_or devs axis blank in
    let w : IsWatched dev = All-get_or IsWatched devs axis blank h (inl refl) in
    let w' : IsWatched (update_axis s dev).0 =
      next_status-IsWatched dev.status s (record_sample s dev) refl w in
    elim (Bool-cases (ltb axis axes_count)) [
      | inl e ↦ rw e (All-set IsWatched devs axis (update_axis s dev).0 h w')
      | inr e ↦ rw e h
    ]

-- No sequence of updates takes an axis to `AXIS_STALLED` or `AXIS_OVERSHOOT`: from the other three
-- statuses all axes stay in these three.
pub update_all-IsWatched :
    (samples : List (ℕ × Sample)) (devs : List Deviation)
    → All IsWatched devs
    → All IsWatched (update_all samples devs)
unfolding update_all
update_all-IsWatched [] devs h = h
update_all-IsWatched ((axis, s) ∷ samples) devs h =
    update_all-IsWatched samples (deviation_update axis s devs).0 (update-IsWatched axis s devs h)

-- The alarm is lifted by the first update within the tolerance once more than 2000 ms have gone by
-- since the deviation began, however long the deviation lasted and however short it is over.
pub alarm_lifted_at_once :
    (s : Sample) (dev : Deviation)
    → dev.status ≡ axis_deviation_error
    → deviation_of s ≤ tolerance_counts
    → recovery_ms < elapsed s.now dev.deviation_start_ms
    → ((update_axis s dev).0.status ≡ axis_ok) × ((update_axis s dev).1 ≡ clear_alarm)
unfolding update_axis record_sample next_status
alarm_lifted_at_once s dev e d t = ground arith
