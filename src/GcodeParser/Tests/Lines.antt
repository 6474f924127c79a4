-- ===== src/GcodeParser/Tests/Lines.antt =====
-- The theorems on the interpreter at lines of G-code.
use bisso_e350_controller.Base.{
  ℕ, ◌+◌, ◌≤◌, ◌≡◌, refl, arith, Bool, true, false, none, some, [], ◌∷◌, replicate,
}
use bisso_e350_controller.Base.Int.{ℤ, pos}
use bisso_e350_controller.MotionBuffer.Ring.{MotionCmd, granted}
use bisso_e350_controller.JobManager.Streaming.{Machine}
use bisso_e350_controller.Motion.Control.{motion_home}
use bisso_e350_controller.Motion.Tests.Data.{resting}
use bisso_e350_controller.GcodeParser.Text.{
  Bytes, strchr, skip_spaces, read_digits, unsigned, signed, strtol,
}
use bisso_e350_controller.GcodeParser.Syntax.{validate_gcode_syntax}
use bisso_e350_controller.GcodeParser.State.{offset, get_work_position, parse_code, has_code}
use bisso_e350_controller.GcodeParser.Moves.{handle_g28, handle_g0_g1}
use bisso_e350_controller.GcodeParser.Commands.{handle_g92}
use bisso_e350_controller.GcodeParser.Dispatch.{process_command}
use bisso_e350_controller.GcodeParser.Offsets.{IsValid}
use bisso_e350_controller.GcodeParser.WorkPosition.{shown, work-position}
use bisso_e350_controller.GcodeParser.Invariant.{process_command-Keeps}
use bisso_e350_controller.GcodeParser.Behaviour.{wants_more, handle_g28-one_axis, message_moves}
use bisso_e350_controller.GcodeParser.Tests.{numbers, move_line, surroundings, moment, parser}

abbrev no_move : MotionCmd ℤ
no_move = record {
  x_counts = pos 0;
  y_counts = pos 0;
  z_counts = pos 0;
  a_counts = pos 0;
  speed_mm_s = pos 0;
}

abbrev machine : {M : Type 0} → M → Machine ℤ M
machine o = record {
  buffer = record { buffer = replicate 1024 no_move; head = 0; tail = 0; count = 0 };
  other = o;
}

abbrev to_counts : ℕ → ℤ → ℤ
to_counts axis v = v

-- The homing of a machine without axes.
abbrev no_home : ℕ → ℕ → ℕ × Bool
no_home axis o = (o, false)

parser-IsValid : IsValid parser
parser-IsValid = record {
  rows = refl;
  width = (refl, (refl, (refl, (refl, (refl, (refl, tt))))));
  system = omega arith;
  safe = refl;
}

-- `G92 X3`
abbrev g92_line : Bytes
g92_line = 71 ∷ 57 ∷ 50 ∷ 32 ∷ 88 ∷ 51 ∷ []

-- `G53 G0 X1` has a second G, which the syntax check refuses.
abbrev g53_line : Bytes
g53_line = 71 ∷ 53 ∷ 51 ∷ 32 ∷ 88 ∷ 49 ∷ []

abbrev g28_line : Bytes
g28_line = 71 ∷ 50 ∷ 56 ∷ []

-- `G1 X10`, behind `M117 `.
abbrev text : Bytes
text = 71 ∷ 49 ∷ 32 ∷ 88 ∷ 49 ∷ 48 ∷ []

work-position_example :
    let g' = (handle_g92 numbers (surroundings no_home) g92_line parser (machine 0)).0 in
    (get_work_position numbers 0 (pos 5) g'
      ≡ shown numbers
          (pos 5)
          (get_work_position numbers 0 (pos 5) parser)
          (parse_code numbers g92_line b'X'))
    × (g'.current_wcs ≡ 0)
    × (offset numbers 1 0 g' ≡ offset numbers 1 0 parser)
work-position_example =
    work-position numbers (surroundings no_home) g92_line 0 1 parser (machine 0) parser-IsValid
      (omega arith) refl

process_command-Keeps_example :
    let (g', m', answer) =
      process_command numbers to_counts
        (surroundings no_home)
        moment
        granted
        move_line
        parser
        (machine 0) in
    IsValid g' × (m'.buffer.count ≤ 0 + 1)
process_command-Keeps_example =
    process_command-Keeps numbers to_counts (surroundings no_home) moment granted move_line parser
      (machine 0) parser-IsValid

wants_all : wants_more g28_line ≡ true
unfolding has_code
wants_all = refl

handle_g28-one_axis_example :
    handle_g28 numbers to_counts
      (surroundings (motion_home true 100 1))
      moment
      g28_line
      (machine resting)
    ≡ machine (motion_home true 100 1 2 resting).0
handle_g28-one_axis_example =
    handle_g28-one_axis numbers to_counts (surroundings (motion_home true 100 1)) moment 100 1
      g28_line (machine resting) (λ axis o. refl) refl refl wants_all

g53_line_valid : validate_gcode_syntax numbers g53_line ≡ none
unfolding validate_gcode_syntax strtol skip_spaces signed unsigned read_digits
g53_line_valid = refl

g53_number : parse_code numbers g53_line b'G' ≡ some (pos 53)
unfolding parse_code strchr strtol skip_spaces signed unsigned read_digits
g53_number = refl

text_number : parse_code numbers text b'G' ≡ some (pos 1)
unfolding parse_code strchr strtol skip_spaces signed unsigned read_digits
text_number = refl

message_moves_example :
    let line = b'M' ∷ b'1' ∷ b'1' ∷ b'7' ∷ b' ' ∷ text in
    process_command numbers to_counts (surroundings no_home) moment granted line parser (machine 0)
    ≡ handle_g0_g1 numbers to_counts (surroundings no_home) moment line parser (machine 0)
message_moves_example =
    message_moves numbers to_counts (surroundings no_home) moment granted text (pos 1) parser
      (machine 0) (omega arith) text_number refl
