-- ===== src/Lib.antt =====
-- The controller of a bridge saw with four axes, of which one moves at a time, on an ESP32: motion,
-- the commands that start and stop it, the queues that feed it, the field bus and the safety state.
--
-- The parts and how they interact. Commands from the console, the web interface and G-code reach
-- `src/motion_control.cpp`, which chooses an axis, starts it and hands it to the state machine of
-- `src/motion_state_machine.cpp`; that machine runs once per update of the motion task until the
-- axis is idle or in error. Commands wait in the ring of `src/motion_buffer.cpp` and G-code lines in
-- the job list of `src/gcode_queue.cpp`; `src/job_manager.cpp` reads a job file and hands its lines to
-- the interpreter of `src/gcode_parser.cpp`, which fills the ring. The planner of
-- `src/motion_planner.cpp` starts the moves of the ring. Axes are driven by the relays of
-- `src/plc_iface.cpp`. Drives, sensors and encoders are asked through the Modbus
-- frames of `src/modbus_rtu.cpp`, in the order that `src/rs485_device_registry.cpp` chooses.
-- `src/safety_state_machine.cpp` keeps the safety state, `src/safety.cpp` the alarm, which stops the
-- motion engine, and `src/encoder_deviation.cpp` watches the encoders. `src/api_rate_limiter.cpp` limits web requests, and
-- `src/auth_manager.cpp` keeps the password of the web interface.
--
-- The files:
-- Base: shared names, numbers of 8, 16 and 32 bits with their wrap written out, integers over the
-- native numbers, bit operations, and lemmas on lists.
-- Motion/Types, Motion/Fsm, Motion/Handlers: the state of an axis (class `Axis`), transitions
-- (`transitionTo`), the state handlers and `update`. A handler maps an axis and the shared state
-- to new ones; what it asks of the hardware, the event groups and the fault log is a list of
-- outputs, the latest first. What it reads (clock, configuration, inputs) is the record `Inputs`,
-- with one field for each reading of the clock.
-- Motion/Control: the commands on the four axes. `move_begin` and `move_end` are the parts of
-- `motionMoveAbsolute` inside and behind the mutex.
-- Motion/Graph, Safety, Homing, Timing: the state machine of one axis. Motion/EmergencyStop,
-- StopCommand, OneActive: the commands, and sequences of commands and updates.
-- MotionBuffer/Ring: the class `MotionBuffer`; MotionBuffer/Fifo: the bounded queue that it
-- promises to be; Refinement and Calls relate the two.
-- GcodeQueue/Jobs, Running: the functions `gcodeQueue...`; History: the jobs as a list; Faults:
-- wrap-around and recovery.
-- BoardInputs/Polling: the operator's buttons (`src/board_inputs.cpp`), a byte being its bits;
-- Debounce, Samples: what the debouncing answers.
-- JobManager/Streaming: the class `JobManager` (`src/job_manager.cpp`), with the motion buffer, and
-- the parser and other services as the record `Services`; Commands, Lines, Finish, Soundness: the lines that
-- it hands over, the end of a job, and its states.
-- GcodeParser/Text: the functions of the C library that the interpreter calls on integers and
-- letters; Syntax: `validateGCodeSyntax` of the class `GCodeParser` (`src/gcode_parser.cpp`); Grammar,
-- Validation: the lines that it accepts; State: the fields, with one more, `in_bounds`, that records
-- whether every write of an offset was inside the array, `parseCode`, and the calls of other
-- components as the record `Surroundings`; Moves, Commands, Dispatch: the commands and
-- `processCommand`; Offsets, WorkPosition: the work coordinate systems; Invariant: what every line keeps;
-- Behaviour: lines that do not do what they say; Jobs: the interpreter in the job manager.
-- SafetyMonitor/Latch: the alarm of `src/safety.cpp`; the motion engine is the interface `MotionSide`.
-- Supervision: `safetyUpdate`; Updates: the steps of an update; Events, Latched: sequences of calls;
-- Reset: the reset; Stops, Stalls, Machine: the alarm and the motion engine.
-- Auth/Passwords, Accounts, Attempts: the hashes of passwords, the account and the limit on failed
-- attempts of `src/auth_manager.cpp`, with SHA-256 as the record `Crypto`; Digests, Strength, Logins,
-- Lockout: which passwords pass, and when an address is refused.
-- Motion/Limits, Planner, Update: the soft limits and the settings, the class `MotionPlanner`
-- (`src/motion_planner.cpp`) and `motionUpdate`, the body of the loop of the motion task. A
-- `System` is the motion engine with the motion buffer; `Tick` holds what one update reads.
-- Motion/SoftLimits, Backoff, LookAhead, Approach: what they do; OneActive/Loop, Events: sequences
-- of commands, updates and settings.
-- Plc/Outputs: the relays (`src/plc_iface.cpp`), the two registers with their boards; Interlock:
-- the relays that exclude one another; Playback: the outputs of the motion engine on the boards;
-- Gaps: when a clearing does not reach them.
-- DeviceRegistry/Devices, Bus: the scheduler of the field bus (`src/rs485_device_registry.cpp`);
-- Order, Selection, Pending, Membership, Transactions, Wedge: the sorted devices, the choice of the next one,
-- and the one response that the bus waits for.
-- Modbus/Table, Crc, Request, Response: the functions `modbus...`; Reference: the CRC by its
-- polynomial, one bit at a time; Sealed, RoundTrip, TableFault relate them.
-- Safety: the table and `safetySetState`; Safety/Levels: the states as levels.
-- RateLimiter/Buckets: `src/api_rate_limiter.cpp`; Window: how much it lets through over time.
-- Deviation/Tracking: `src/encoder_deviation.cpp`, which compares the encoders with the commanded
-- positions; Alarm: its alarm.
--
-- Bounds. Times and counters wrap at their width in the source: `% 2 ^ 32` for `millis()` and
-- differences of it, `% 2 ^ 16` for job ids. Positions are integers without a bound; differences of
-- positions are taken to fit the 32 bits of the source. All loops are structural recursion but for the
-- count of the lines of a file, whose fuel is the bytes that are left in it, and
-- the loop over the parameters of a line of G-code, whose fuel is the bytes of the text.
--
-- Not modelled: floating-point arithmetic, which enters as its integer result or as a parameter; the
-- prediction of positions and the maintenance statistics of `motionUpdate`; log and display texts; memory
-- allocation; the interleaving of tasks inside a function, but for the gaps behind the mutex of a
-- move and behind that of the relays. The web server, console, configuration, telemetry and drivers are left out.
pub mod Base
pub mod Modbus
pub mod Motion
pub mod MotionBuffer
pub mod GcodeParser
pub mod GcodeQueue
pub mod JobManager
pub mod BoardInputs
pub mod DeviceRegistry
pub mod Plc
pub mod Safety
pub mod Deviation
pub mod RateLimiter
pub mod SafetyMonitor
pub mod Auth
