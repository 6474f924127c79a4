-- ===== src/GcodeParser/Jobs.antt =====
-- Jobs of src/job_manager.cpp whose lines go to the interpreter of src/gcode_parser.cpp.
use bisso_e350_controller.Base.{ℕ, Bool}
use bisso_e350_controller.Base.Int.{ℤ}
use bisso_e350_controller.MotionBuffer.Ring.{Lock}
use bisso_e350_controller.JobManager.Streaming.{JobManager, Machine, Services}
use bisso_e350_controller.GcodeParser.Text.{Bytes}
use bisso_e350_controller.GcodeParser.Syntax.{Numbers}
use bisso_e350_controller.GcodeParser.State.{GcodeParser, Moment, Surroundings}
use bisso_e350_controller.GcodeParser.Dispatch.{process_command}

module _ {F D M : Type 0} (num : Numbers F D) (to_counts : ℕ → F → ℤ) (around : Surroundings F M)
    (t : Moment) (clear_lock : Lock) where
  -- `gcodeParser.processCommand`, the parser being a part of the machine.
  unfoldable pub interpret :
      Bytes → Machine F (GcodeParser F × M) → Machine F (GcodeParser F × M) × Bool
  unfolding process_command
  interpret line m =
      let (g, o) = m.other in
      let (g', m', answer) =
        process_command num to_counts around t clear_lock line g
          (record { buffer = m.buffer; other = o }) in
      (record { buffer = m'.buffer; other = (g', m'.other) }, answer)

  -- The services of the job manager, with this parser.
  abbrev pub with_interpreter :
      Services Bytes F (GcodeParser F × M) → Services Bytes F (GcodeParser F × M)
  with_interpreter services = record services { process_command = interpret }
