-- ===== src/GcodeParser/Invariant/Kept.antt =====
-- What a command of src/gcode_parser.cpp may do to the offsets and to the motion buffer.
use bisso_e350_controller.Base.{◌+◌, ◌≤◌, Bool, arith}
use bisso_e350_controller.JobManager.Streaming.{Machine}
use bisso_e350_controller.GcodeParser.State.{GcodeParser}
use bisso_e350_controller.GcodeParser.Offsets.{IsValid}

module _ {F M : Type 0} where
  -- A machine with at most one command more in the motion buffer.
  abbrev pub AddsOne : Machine F M → Machine F M → Type 0
  AddsOne m m' = m'.buffer.count ≤ m.buffer.count + 1

  abbrev pub Keeps : GcodeParser F → Machine F M → GcodeParser F × Machine F M × Bool → Type 0
  Keeps g m r = (IsValid g → IsValid r.0) × AddsOne m r.1

  pub self : (m : Machine F M) → AddsOne m m
  self m = omega arith

module _ {F : Type 0} where
  pub keep : (g : GcodeParser F) → IsValid g → IsValid g
  keep g v = v
