-- ===== src/Deviation/Tracking.antt =====
-- The state and the functions of src/encoder_deviation.cpp. The difference of two positions is
-- taken to fit an `int32_t`.
use bisso_e350_controller.Base.{
  ℕ, ◌+◌, Bool, true, false, not, ◌&&◌, ◌||◌, if◌then◌else◌, ltb, ◌==◌, u32, elapsed, List, [], ◌∷◌,
  get_or, set,
}
use bisso_e350_controller.Base.Int.{ℤ, pos, ◌-ℤ◌, pos_part, neg_part}

-- `encoder_deviation_status_t`
pub data Status : Type 0 where
  axis_ok axis_deviation_warning axis_deviation_error axis_stalled axis_overshoot : Status

abbrev pub status_number : Status → ℕ
status_number axis_ok = 0
status_number axis_deviation_warning = 1
status_number axis_deviation_error = 2
status_number axis_stalled = 3
status_number axis_overshoot = 4

-- `encoder_deviation_t`
pub record Deviation : Type 0 where
  pub status : Status
  pub expected_position : ℤ
  pub actual_position : ℤ
  pub deviation_counts : ℤ
  pub deviation_start_ms : ℕ
  pub last_update_ms : ℕ
  pub deviation_count : ℕ
  pub alarm_count : ℕ
  pub max_deviation : ℕ

-- What an update does to `EVENT_SAFETY_ENCODER_DEVIATION`; setting it comes with a fault entry.
pub data Signal : Type 0 where
  no_signal set_alarm clear_alarm : Signal

abbrev pub axes_count : ℕ
axes_count = 4

abbrev pub tolerance_counts : ℕ
tolerance_counts = 50

abbrev pub recovery_ms : ℕ
recovery_ms = 2000

abbrev pub blank : Deviation
blank = record {
  status = axis_ok;
  expected_position = pos 0;
  actual_position = pos 0;
  deviation_counts = pos 0;
  deviation_start_ms = 0;
  last_update_ms = 0;
  deviation_count = 0;
  alarm_count = 0;
  max_deviation = 0;
}

abbrev pub abs_counts : ℤ → ℕ
abs_counts d = pos_part d + neg_part d

-- What an update reads: the time, the configured timeout, the positions, and whether the velocity
-- is above the least active one.
pub record Sample : Type 0 where
  pub now : ℕ
  pub timeout_ms : ℕ
  pub expected_pos : ℤ
  pub actual_pos : ℤ
  pub is_moving : Bool

abbrev pub deviation_of : Sample → ℕ
deviation_of s = abs_counts (s.actual_pos -ℤ s.expected_pos)

abbrev pub exceeds_tolerance : Sample → Bool
exceeds_tolerance s = ltb tolerance_counts (deviation_of s)

unfoldable pub record_sample : Sample → Deviation → Deviation
record_sample s dev = record dev {
  expected_position = s.expected_pos;
  actual_position = s.actual_pos;
  deviation_counts = s.actual_pos -ℤ s.expected_pos;
  last_update_ms = s.now;
  max_deviation =
      if ltb dev.max_deviation (deviation_of s) then deviation_of s else dev.max_deviation;
}

abbrev pub with_status : Status → Deviation → Deviation
with_status st dev = record dev { status = st }

-- The switch of `encoderDeviationUpdate`.
unfoldable pub next_status : Status → Sample → Deviation → Deviation × Signal
next_status axis_ok s dev =
    if s.is_moving && exceeds_tolerance s
    then (
      record dev {
        status = axis_deviation_warning;
        deviation_start_ms = s.now;
        deviation_count = u32 (dev.deviation_count + 1);
      },
      no_signal,
    )
    else (dev, no_signal)
next_status axis_deviation_warning s dev =
    if not (exceeds_tolerance s)
    then (with_status axis_ok dev, no_signal)
    else if ltb s.timeout_ms (elapsed s.now dev.deviation_start_ms)
    then (
      record dev { status = axis_deviation_error; alarm_count = u32 (dev.alarm_count + 1) },
      set_alarm,
    )
    else if not s.is_moving
    then (with_status axis_ok dev, no_signal)
    else (dev, no_signal)
next_status axis_deviation_error s dev =
    if not (exceeds_tolerance s) && ltb recovery_ms (elapsed s.now dev.deviation_start_ms)
    then (with_status axis_ok dev, clear_alarm)
    else (dev, no_signal)
next_status axis_stalled s dev =
    if s.is_moving then (with_status axis_ok dev, no_signal) else (dev, no_signal)
next_status axis_overshoot s dev =
    if not (exceeds_tolerance s) then (with_status axis_ok dev, no_signal) else (dev, no_signal)

-- `encoderDeviationUpdate` on the data of its axis.
unfoldable pub update_axis : Sample → Deviation → Deviation × Signal
unfolding record_sample next_status
update_axis s dev = next_status dev.status s (record_sample s dev)

unfoldable pub deviation_update : ℕ → Sample → List Deviation → List Deviation × Signal
unfolding update_axis
deviation_update axis s devs =
    if not (ltb axis axes_count)
    then (devs, no_signal)
    else let (dev, signal) = update_axis s (get_or devs axis blank) in (set devs axis dev, signal)

unfoldable pub get_deviation_status : ℕ → List Deviation → Status
get_deviation_status axis devs =
    if not (ltb axis axes_count) then axis_ok else (get_or devs axis blank).status

-- The loop of `encoderHasDeviationAlarm`.
unfoldable pub has_deviation_alarm : List Deviation → Bool
has_deviation_alarm [] = false
has_deviation_alarm (dev ∷ devs) =
    let n = status_number dev.status in if n == 2 || n == 3 then true else has_deviation_alarm devs

unfoldable pub clear_axis : Deviation → Deviation
clear_axis dev = record dev { status = axis_ok; deviation_start_ms = 0; max_deviation = 0 }

unfoldable pub deviation_clear : ℕ → List Deviation → List Deviation
unfolding clear_axis
deviation_clear axis devs =
    if not (ltb axis axes_count) then devs else set devs axis (clear_axis (get_or devs axis blank))

-- The loop of `encoderDeviationClearAll` over the axes.
unfoldable pub deviation_clear_all : List Deviation → List Deviation
unfolding clear_axis
deviation_clear_all [] = []
deviation_clear_all (dev ∷ devs) = clear_axis dev ∷ deviation_clear_all devs
