-- ===== src/GcodeParser/Tests.antt =====
-- The theorems on G-code at concrete lines, with integers for the floating-point numbers.
use bisso_e350_controller.Base.{
  ℕ, zero, suc, ◌+◌, ◌*◌, ◌-◌, ◌≤◌, ◌<◌, ◌≡◌, ◌↔◌, refl, ap, arith, Bool, true, false, not,
  if◌then◌else◌, ◌==◌, ◌&&◌, leb, Option, none, some, List, [], ◌∷◌, length, replicate, Bool-cases,
  inl, inr,
}
use bisso_e350_controller.Base.Int.{
  ℤ, pos, negsuc, sub_ℕ, ◌+ℤ◌, ◌-ℤ◌, ltb_ℤ, pos_part, neg_part, int_laws,
}
use bisso_e350_controller.MotionBuffer.Ring.{
  MotionCmd, MotionBuffer, granted, push, push_unsafe, clear,
}
use bisso_e350_controller.JobManager.Streaming.{
  JobStatus, job_running, job_completed, JobManager, Files, Machine, Services,
}
use bisso_e350_controller.JobManager.Finish.{rounds}
use bisso_e350_controller.GcodeParser.Text.{
  Bytes, strchr, toupper, is_digit, is_space, skip_spaces, read_digits, unsigned, signed, signed_by,
  strtol,
}
use bisso_e350_controller.GcodeParser.Syntax.{Numbers, validate_gcode_syntax}
use bisso_e350_controller.GcodeParser.Grammar.{IsValid}
use bisso_e350_controller.GcodeParser.Validation.{validate_iff}
use bisso_e350_controller.GcodeParser.State.{
  GcodeParser, absolute, Moment, Readings, Surroundings, init, get_work_position, parse_code,
}
mod Lines

length-skip_spaces : (s : Bytes) → length (skip_spaces s) ≤ length s
unfolding skip_spaces
length-skip_spaces [] = omega arith
length-skip_spaces (c ∷ s) = ground (arith, length-skip_spaces s)

length-read_digits : (n : ℕ) (s : Bytes) → length (read_digits n s).1 ≤ length s
unfolding read_digits
length-read_digits n [] = omega arith
length-read_digits n (c ∷ s) = ground (arith, length-read_digits (n * 10 + (c - b'0')) s)

unsigned-length : (s : Bytes) (n : ℕ) (r : Bytes) → unsigned s ≡ some (n, r) → length r ≤ length s
unfolding unsigned
unsigned-length [] n r e = cc
unsigned-length (c ∷ s) n r e = ground (arith, length-read_digits 0 (c ∷ s))

signed_by-length :
    (sign : ℕ → ℤ) (s : Bytes) (o : Option (ℕ × Bytes)) (n : ℤ) (r : Bytes)
    → unsigned s ≡ o
    → signed_by sign o ≡ some (n, r)
    → length r ≤ length s
signed_by-length sign s none n r u e = cc
signed_by-length sign s (some (k, q)) n r u e =
    let same : q ≡ r = ground arith in
    let h = unsigned-length s k q u in let l = ap (length {0}) same in omega arith

signed-length : (s : Bytes) (n : ℤ) (r : Bytes) → signed s ≡ some (n, r) → length r ≤ length s
unfolding signed
signed-length [] n r e = cc
signed-length (c ∷ s) n r e = elim (Bool-cases (c == b'-')) [
  | inl m ↦ let h = signed_by-length (sub_ℕ 0) s (unsigned s) n r refl (rw m at e) in omega arith
  | inr k ↦ elim (Bool-cases (c == b'+')) [
    | inl p ↦ let h = signed_by-length pos s (unsigned s) n r refl (rw (k, p) at e) in omega arith
    | inr q ↦ signed_by-length pos (c ∷ s) (unsigned (c ∷ s)) n r refl (rw (k, q) at e)
  ]
]

abbrev pub equal_ℤ : ℤ → ℤ → Bool
equal_ℤ a b = not (ltb_ℤ a b) && not (ltb_ℤ b a)

abbrev pub numbers : Numbers ℤ ℤ
numbers = record {
  strtof = strtol;
  is_finite = λ v. true;
  strtod = strtol;
  is_nan_or_inf = λ v. false;
  to_float = λ v. v;
  of_int = pos;
  trunc = λ v. v;
  add = ◌+ℤ◌;
  sub = ◌-ℤ◌;
  times_1000 = λ v. v;
  exceeds = λ a b. ltb_ℤ b a;
  equal = equal_ℤ;
  apart = λ a b. not (equal_ℤ a b);
}

goes_on : (s : Bytes) (v : ℤ) (r : Bytes) → strtol s ≡ some (v, r) → length r ≤ length s
unfolding strtol
goes_on s v r e =
    let h = signed-length (skip_spaces s) v r e in let k = length-skip_spaces s in omega arith

-- `G1 X10`
abbrev move_line : Bytes
move_line = 71 ∷ 49 ∷ 32 ∷ 88 ∷ 49 ∷ 48 ∷ []

validate_iff_example : (validate_gcode_syntax numbers move_line ≡ none) ↔ IsValid numbers move_line
validate_iff_example = validate_iff numbers move_line goes_on

move_line_valid : validate_gcode_syntax numbers move_line ≡ none
unfolding validate_gcode_syntax
move_line_valid = refl

-- The machine stands at 5 on each axis; `home` is the homing of an axis.
abbrev pub surroundings : {M : Type 0} → (ℕ → M → M × Bool) → Surroundings ℤ M
surroundings home = record {
  readings = λ o. record {
    position_mm = λ axis. pos 5;
    buffer_enabled = true;
    home_enabled = true;
    opt_stop_skip = false;
    preset = λ n axis. pos 0;
  };
  set_current_command = λ line o. o;
  motion_move_absolute = λ x y z a v o. (o, false);
  motion_home = home;
  motion_dwell = λ ms o. (o, true);
  motion_wait_pin = λ pin type state timeout o. (o, true);
  motion_stop = λ o. o;
  motion_pause = λ o. (o, true);
  motion_emergency_stop = λ o. o;
  set_relay = λ relay is_on o. o;
  lcd_message_set = λ text ms o. o;
  report_position = λ o. o;
  report_firmware = λ o. o;
  auto_report_set_interval = λ s o. (o, true);
  lcd_sleep_set_timeout = λ s o. (o, true);
  save_wcs = λ system row o. o;
}

abbrev pub moment : Moment
moment = record { now = 100; full_lock = granted; push_lock = granted }

abbrev pub parser : GcodeParser ℤ
parser = record {
  distance_mode = absolute;
  current_feed_rate = pos 50;
  current_wcs = 0;
  machine_coordinates_mode = false;
  wcs_offsets = replicate 6 (replicate 4 (pos 0));
  in_bounds = true;
  program_paused = false;
  pause_start_time = 0;
}
