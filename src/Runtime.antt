-- ===== src/Runtime.antt =====
-- The recording and replaying runtime (crates/runtime).
pub mod Event
pub mod Host
pub mod Ids
pub mod Scheduler
pub mod Fault
pub mod Injector
pub mod Actor
pub mod Program
pub mod Template
pub mod Actions
pub mod Contract
pub mod Totality
pub mod Node
pub mod Startup
pub mod Network
pub mod EventEquality
pub mod Record
pub mod Cursor
pub mod Replay
pub mod CommandLine
pub mod Lines
