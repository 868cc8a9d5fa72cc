-- ===== src/Execution.antt =====
-- src/execution_state.cpp: what the recorder makes of the stops of its tracees.
pub mod State
pub mod Events
pub mod Markers
pub mod Processes
pub mod Calls
pub mod Opens
pub mod Descriptors
pub mod Syscalls
pub mod Effect
pub mod Outcome
pub mod Log
pub mod Invariant
pub mod Attribution
pub mod Phases
pub mod Tracking
pub mod Run
