-- ===== src/MotionBuffer.antt =====
-- The ring buffer of motion commands, src/motion_buffer.cpp.
pub mod Ring
pub mod Fifo
pub mod Refinement
pub mod Calls
mod Tests
