-- ===== src/Deviation.antt =====
-- The supervision of the encoders against the commanded positions, src/encoder_deviation.cpp.
pub mod Tracking
pub mod Alarm
mod Tests
