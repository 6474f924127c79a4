-- ===== src/Motion.antt =====
-- Motion control: the state machine of an axis (src/motion_state_machine.cpp), the commands
-- that drive it and the loop of the motion task (src/motion_control.cpp), and the planner
-- (src/motion_planner.cpp).
pub mod Types
pub mod Fsm
pub mod Handlers
pub mod Graph
pub mod Safety
pub mod Homing
pub mod Timing
pub mod Control
pub mod EmergencyStop
pub mod StopCommand
pub mod OneActive
pub mod Limits
pub mod Planner
pub mod Update
pub mod SoftLimits
pub mod Backoff
pub mod LookAhead
pub mod Approach
pub mod Tests
