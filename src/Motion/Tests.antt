-- ===== src/Motion/Tests.antt =====
-- The theorems on the motion engine at concrete axes, inputs and machines, and runs of the code.
pub mod Data
mod Axes
mod Machine
mod Loop
