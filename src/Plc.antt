-- ===== src/Plc.antt =====
-- The relay outputs and the inputs of the PLC boards (src/plc_iface.cpp), and what the outputs of the
-- motion engine make of them.
pub mod Outputs
pub mod Interlock
pub mod Playback
pub mod Gaps
mod Tests
