-- ===== src/GcodeParser/Commands.antt =====
-- The other commands of src/gcode_parser.cpp, and `processCommand`.
use bisso_e350_controller.Base.{
  ℕ, suc, Bool, true, false, ◌&&◌, ◌||◌, if◌then◌else◌, ltb, leb, ◌==◌, u8, Option, none, some,
  List, [], ◌∷◌, length, get_or, drop,
}
use bisso_e350_controller.Base.Int.{ℤ, pos, pos_part}
use bisso_e350_controller.JobManager.Streaming.{Machine}
use bisso_e350_controller.GcodeParser.Text.{Bytes, strchr, skip_blanks}
use bisso_e350_controller.GcodeParser.Syntax.{Numbers}
use bisso_e350_controller.GcodeParser.State.{
  GcodeParser, Surroundings, parse_code, set_offset, axis_letters,
}
use bisso_e350_controller.GcodeParser.Moves.{on_other, ask_other}

-- What a line starts with, for the comments.
abbrev pub is_remark : Bytes → Bool
is_remark [] = false
is_remark (c ∷ s) = c == b'(' || c == b';'

-- The number of a work coordinate system, from its number in a line, which counts from 1.
abbrev pub system_of : ℤ → Option ℕ
system_of (pos (suc n)) = if leb n 5 then some n else none
system_of _ = none

-- M1 is told from M0 by the character behind the first M.
abbrev pub is_optional : Option Bytes → Bool
is_optional (some (c ∷ rest)) = c == b'1'
is_optional _ = false

-- "PAUSED: Resume?"
abbrev pub pause_text : Bytes
pause_text = 80 ∷ 65 ∷ 85 ∷ 83 ∷ 69 ∷ 68 ∷ 58 ∷ 32 ∷ 82 ∷ 101 ∷ 115 ∷ 117 ∷ 109 ∷ 101 ∷ 63 ∷ []

module _ {F D : Type 0} (num : Numbers F D) where
  -- `val > 0`, `val >= 0`, and a value that stands when the code is not there.
  abbrev pub is_positive : F → Bool
  is_positive v = num.exceeds v (num.of_int 0)

  abbrev pub is_negative : F → Bool
  is_negative v = num.exceeds (num.of_int 0) v

  abbrev pub value_or : F → Option F → F
  value_or d none = d
  value_or d (some v) = v

  -- The cast of a number that is not negative to an unsigned one.
  abbrev pub natural : F → ℕ
  natural v = pos_part (num.trunc v)

  -- An axis of the line gets the offset that makes its position the given value.
  abbrev pub shift_axis : ℕ → F → ℕ → Option F → GcodeParser F → GcodeParser F
  shift_axis system at axis none g = g
  shift_axis system at axis (some v) g = set_offset system axis (num.sub at v) g

  -- The loops of G10 and G92.
  unfoldable pub shift_axes : Bytes → ℕ → (ℕ → F) → List (ℕ × ℕ) → GcodeParser F → GcodeParser F
  unfolding parse_code
  shift_axes line system at [] g = g
  shift_axes line system at ((axis, letter) ∷ axes) g =
      shift_axes line system at axes
        (shift_axis system (at axis) axis (parse_code num line letter) g)

module _ {F D M : Type 0} (num : Numbers F D) (around : Surroundings F M) where
  -- `saveWCS` behind a shift of the offsets.
  unfoldable pub shift_and_save :
      Bytes → ℕ → GcodeParser F → Machine F M → GcodeParser F × Machine F M
  unfolding shift_axes
  shift_and_save line system g m =
      let g' = shift_axes num line system (around.readings m.other).position_mm axis_letters g in
      let row = get_or g'.wcs_offsets system [] in
      (g', if leb system 5 then on_other (around.save_wcs system row) m else m)

  abbrev pub shift_system :
      Bytes → Option ℕ → GcodeParser F → Machine F M → GcodeParser F × Machine F M
  shift_system line none g m = (g, m)
  shift_system line (some system) g m = shift_and_save line system g m

  abbrev pub is_20 : Option F → Bool
  is_20 none = false
  is_20 (some v) = num.equal v (num.of_int 20)

  unfoldable pub handle_g10 : Bytes → GcodeParser F → Machine F M → GcodeParser F × Machine F M
  unfolding parse_code shift_and_save
  handle_g10 line g m =
      let system = value_or num (num.of_int 1) (parse_code num line b'P') in
      if is_20 (parse_code num line b'L')
      then shift_system line (system_of (num.trunc system)) g m
      else (g, m)

  unfoldable pub handle_g92 : Bytes → GcodeParser F → Machine F M → GcodeParser F × Machine F M
  unfolding shift_and_save
  handle_g92 line g m = shift_and_save line g.current_wcs g m

  -- The time of a dwell in milliseconds, 0 when the line gives none.
  unfoldable pub dwell_ms : Option F → Option F → ℕ
  dwell_ms p s =
      let of_s : ℕ = elim s [
        | none ↦ 0
        | some v ↦ if is_positive num v then natural num (num.times_1000 v) else 0
      ] in
      elim p [ none ↦ of_s | some v ↦ if is_positive num v then natural num v else of_s ]

  unfoldable pub handle_g4 : Bytes → Machine F M → Machine F M
  unfolding parse_code dwell_ms
  handle_g4 line m =
      let ms = dwell_ms (parse_code num line b'P') (parse_code num line b'S') in
      if ltb 0 ms then (ask_other (around.motion_dwell ms) m).0 else m

  unfoldable pub handle_m0_m1 :
      ℕ → Bytes → GcodeParser F → Machine F M → GcodeParser F × Machine F M
  unfolding strchr
  handle_m0_m1 now line g m =
      let shown = on_other (around.lcd_message_set pause_text 0) m in
      if is_optional (strchr b'M' line) && (around.readings m.other).opt_stop_skip
      then (g, m)
      else (
        record g { program_paused = true; pause_start_time = now },
        (ask_other around.motion_pause shown).0,
      )

  abbrev pub show_message : Bytes → Machine F M → Machine F M
  show_message [] m = m
  show_message (c ∷ s) m = on_other (around.lcd_message_set (c ∷ s) 10000) m

  unfoldable pub handle_m117 : Bytes → Machine F M → Machine F M
  unfolding skip_blanks
  handle_m117 line m = if ltb (length line) 4 then m else show_message (skip_blanks (drop 4 line)) m

  -- M154 and M255: a setting in seconds that is not negative.
  abbrev pub set_seconds : (ℕ → M → M × Bool) → Option F → Machine F M → Machine F M
  set_seconds call none m = m
  set_seconds call (some v) m =
      if is_negative num v then m else (ask_other (call (natural num v)) m).0

  unfoldable pub handle_m154 : Bytes → Machine F M → Machine F M
  unfolding parse_code
  handle_m154 line m = set_seconds around.auto_report_set_interval (parse_code num line b'S') m

  unfoldable pub handle_m255 : Bytes → Machine F M → Machine F M
  unfolding parse_code
  handle_m255 line m = set_seconds around.lcd_sleep_set_timeout (parse_code num line b'S') m

  -- The pin, its type, the state and the timeout of M226 in range.
  unfoldable pub wait_for : ℕ → ℕ → ℕ → ℕ → Machine F M → Machine F M
  wait_for pin type state timeout m =
      if ltb 2 type
      then m
      else if (type == 0 || type == 1) && ltb 7 pin
      then m
      else if type == 2 && ltb 39 pin
      then m
      else (ask_other (around.motion_wait_pin pin type state timeout) m).0

  unfoldable pub wait_in_state : Bytes → F → Option F → Machine F M → Machine F M
  unfolding parse_code wait_for
  wait_in_state line p none m = m
  wait_in_state line p (some s) m =
      if num.equal s (num.of_int 0) || num.equal s (num.of_int 1)
      then wait_for (u8 (natural num p))
          (u8 (natural num (value_or num (num.of_int 0) (parse_code num line b'A'))))
          (u8 (natural num s))
          (natural num (value_or num (num.of_int 5) (parse_code num line b'T'))) m
      else m

  abbrev pub wait_on : Bytes → Option F → Machine F M → Machine F M
  wait_on line none m = m
  wait_on line (some p) m =
      if is_negative num p then m else wait_in_state line p (parse_code num line b'S') m

  unfoldable pub handle_m226 : Bytes → Machine F M → Machine F M
  unfolding parse_code wait_in_state
  handle_m226 line m = wait_on line (parse_code num line b'P') m
