-- ===== src/BoardInputs.antt =====
-- The operator's buttons, src/board_inputs.cpp.
pub mod Polling
pub mod Debounce
pub mod Samples
mod Tests
