-- ===== src/SafetyMonitor.antt =====
-- The safety monitor, src/safety.cpp: the alarm and what raises it.
pub mod Latch
pub mod Supervision
pub mod Updates
pub mod Events
pub mod Latched
pub mod Reset
pub mod Stops
pub mod Stalls
pub mod Machine
mod Tests
