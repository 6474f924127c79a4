-- ===== src/JobManager.antt =====
-- The streaming of a job file to the G-code parser, src/job_manager.cpp.
pub mod Streaming
pub mod Commands
pub mod Lines
pub mod Finish
pub mod Soundness
mod Tests
