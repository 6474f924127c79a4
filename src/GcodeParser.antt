-- ===== src/GcodeParser.antt =====
-- The G-code interpreter, src/gcode_parser.cpp.
pub mod Text
pub mod Syntax
pub mod Grammar
pub mod Validation
pub mod State
pub mod Moves
pub mod Commands
pub mod Dispatch
pub mod Offsets
pub mod WorkPosition
pub mod Invariant
pub mod Behaviour
pub mod Jobs
pub mod Tests
