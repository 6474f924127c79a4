-- ===== src/JobManager/Tests/Gcode.antt =====
-- The theorem on jobs of G-code at a file of three lines, with a motion buffer that was just made.
use bisso_e350_controller.Base.{ℕ, Bool, true, false, List, replicate}
use bisso_e350_controller.Base.Int.{ℤ, pos}
use bisso_e350_controller.MotionBuffer.Ring.{MotionCmd, granted, clear}
use bisso_e350_controller.JobManager.Streaming.{Machine, Services}
use bisso_e350_controller.GcodeParser.State.{GcodeParser}
use bisso_e350_controller.GcodeParser.Jobs.{with_interpreter}
use bisso_e350_controller.GcodeParser.Tests.{numbers, surroundings, moment, parser}

abbrev Board : Type 0
Board = Machine ℤ (GcodeParser ℤ × ℕ)

abbrev no_move : MotionCmd ℤ
no_move = record {
  x_counts = pos 0;
  y_counts = pos 0;
  z_counts = pos 0;
  a_counts = pos 0;
  speed_mm_s = pos 0;
}

abbrev board : Board
board = record {
  buffer = record { buffer = replicate 1024 no_move; head = 0; tail = 0; count = 0 };
  other = (parser, 0);
}

abbrev to_counts : ℕ → ℤ → ℤ
to_counts axis v = v

abbrev no_home : ℕ → ℕ → ℕ × Bool
no_home axis o = (o, false)

abbrev services : Services (List ℕ) ℤ (GcodeParser ℤ × ℕ)
services = record {
  process_command = λ line m. (m, true);
  enable_buffer = λ m. m;
  end_session = λ m. m;
  alert_job_complete = λ m. m;
  motion_pause = λ m. m;
  motion_resume = λ m. m;
  motion_stop = λ m. m;
}

abbrev interpreter : Services (List ℕ) ℤ (GcodeParser ℤ × ℕ)
interpreter = with_interpreter numbers to_counts (surroundings no_home) moment granted services

abbrev drain : Board → Board
drain m = record m { buffer = clear granted m.buffer }
