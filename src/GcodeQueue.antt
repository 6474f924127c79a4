-- ===== src/GcodeQueue.antt =====
-- The job queue of G-code commands, src/gcode_queue.cpp.
pub mod Jobs
pub mod Running
pub mod History
pub mod Faults
mod Tests
