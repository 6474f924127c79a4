-- ===== src/GcodeParser/Dispatch.antt =====
-- `GCodeParser::processCommand` of src/gcode_parser.cpp.
use bisso_e350_controller.Base.{
  ℕ, ◌-◌, Bool, true, false, ◌&&◌, ◌||◌, if◌then◌else◌, leb, ◌==◌, Option, none, some, [], ◌∷◌,
}
use bisso_e350_controller.Base.Int.{ℤ, pos, negsuc}
use bisso_e350_controller.MotionBuffer.Ring.{Lock, clear}
use bisso_e350_controller.JobManager.Streaming.{Machine}
use bisso_e350_controller.GcodeParser.Text.{Bytes}
use bisso_e350_controller.GcodeParser.Syntax.{Numbers, SyntaxError, validate_gcode_syntax}
use bisso_e350_controller.GcodeParser.State.{
  absolute, relative, GcodeParser, Moment, spindle_speed_1, coolant, vacuum, Surroundings,
  parse_code,
}
use bisso_e350_controller.GcodeParser.Moves.{
  on_other, handle_g0_g1, handle_g28, handle_g30, handle_g53,
}
use bisso_e350_controller.GcodeParser.Commands.{
  is_remark, handle_g10, handle_g92, handle_g4, handle_m0_m1, handle_m117, handle_m154, handle_m226,
  handle_m255,
}

module _ {F D M : Type 0} (num : Numbers F D) (to_counts : ℕ → F → ℤ) (around : Surroundings F M)
    (t : Moment) (clear_lock : Lock) where
  -- The parser, the machine and the answer.
  abbrev pub Outcome : Type 0
  Outcome = GcodeParser F × Machine F M × Bool

  abbrev pub with_true : GcodeParser F × Machine F M → Outcome
  with_true (g, m) = (g, m, true)

  -- The commands by the number behind `G`.
  unfoldable pub run_g : Bytes → ℤ → GcodeParser F → Machine F M → Outcome
  unfolding handle_g0_g1 handle_g4 handle_g10 handle_g28 handle_g30 handle_g53 handle_g92
  run_g line (negsuc n) g m = (g, m, false)
  run_g line (pos n) g m =
      if n == 0 || n == 1
      then handle_g0_g1 num to_counts around t line g m
      else if n == 4
      then (g, handle_g4 num around line m, true)
      else if n == 10
      then with_true (handle_g10 num around line g m)
      else if n == 28
      then (g, handle_g28 num to_counts around t line m, true)
      else if n == 30
      then (g, handle_g30 num to_counts around t line g m, true)
      else if n == 53
      then with_true (handle_g53 num to_counts around t line g m)
      else if leb 54 n && leb n 59
      then (record g { current_wcs = n - 54 }, m, true)
      else if n == 90
      then (record g { distance_mode = absolute }, m, true)
      else if n == 91
      then (record g { distance_mode = relative }, m, true)
      else if n == 92
      then with_true (handle_g92 num around line g m)
      else (g, m, false)

  -- `motionEmergencyStop` clears the motion buffer.
  abbrev pub stop_everything : Machine F M → Machine F M
  stop_everything m = record {
    buffer = clear clear_lock m.buffer;
    other = around.motion_emergency_stop m.other;
  }

  -- The commands by the number behind `M`.
  unfoldable pub run_m : Bytes → ℤ → GcodeParser F → Machine F M → Outcome
  unfolding handle_m0_m1 handle_m117 handle_m154 handle_m226 handle_m255
  run_m line (negsuc n) g m = (g, m, false)
  run_m line (pos n) g m =
      if n == 0 || n == 1
      then with_true (handle_m0_m1 num around t.now line g m)
      else if n == 2
      then (g, on_other around.motion_stop m, true)
      else if n == 3
      then (g, on_other (around.set_relay spindle_speed_1 true) m, true)
      else if n == 5
      then (g, on_other (around.set_relay spindle_speed_1 false) m, true)
      else if n == 8
      then (g, on_other (around.set_relay coolant true) m, true)
      else if n == 9
      then (
        g,
        on_other (λ o. around.set_relay vacuum false (around.set_relay coolant false o)) m,
        true,
      )
      else if n == 10
      then (g, on_other (around.set_relay vacuum true) m, true)
      else if n == 11
      then (g, on_other (around.set_relay vacuum false) m, true)
      else if n == 117
      then (g, handle_m117 num around line m, true)
      else if n == 114
      then (g, on_other around.report_position m, true)
      else if n == 115
      then (g, on_other around.report_firmware m, true)
      else if n == 154
      then (g, handle_m154 num around line m, true)
      else if n == 226
      then (g, handle_m226 num around line m, true)
      else if n == 255
      then (g, handle_m255 num around line m, true)
      else if n == 112
      then (g, stop_everything m, true)
      else (g, m, false)

  -- The command of a line, by its first `G` with a number or else its first `M` with one.
  abbrev pub run_m_code : Bytes → Option F → GcodeParser F → Machine F M → Outcome
  run_m_code line none g m = (g, m, false)
  run_m_code line (some v) g m = run_m line (num.trunc v) g m

  abbrev pub is_117 : ℤ → Bool
  is_117 (pos n) = n == 117
  is_117 (negsuc n) = false

  abbrev pub run_code : Bytes → Option F → GcodeParser F → Machine F M → Outcome
  run_code line none g m = run_m_code line (parse_code num line b'M') g m
  run_code line (some v) g m =
      if is_117 (num.trunc v)
      then (g, handle_m117 num around line m, true)
      else run_g line (num.trunc v) g (on_other (around.set_current_command line) m)

  abbrev pub run_valid : Option SyntaxError → Bytes → GcodeParser F → Machine F M → Outcome
  run_valid (some e) line g m = (g, m, false)
  run_valid none line g m = run_code line (parse_code num line b'G') g m

  unfoldable pub process_command : Bytes → GcodeParser F → Machine F M → Outcome
  unfolding validate_gcode_syntax parse_code run_g run_m
  process_command [] g m = (g, m, false)
  process_command (c ∷ s) g m =
      if is_remark (c ∷ s)
      then (g, m, true)
      else run_valid (validate_gcode_syntax num (c ∷ s)) (c ∷ s) g m
