-- ===== src/Runtime.antt =====
-- The durable turn runtime of control-plane/internal/runtime/store.go: runs, steps, turns and the event log.
pub mod Rows
pub mod Statements
pub mod Transitions
pub mod Queries
pub mod Settlement
pub mod Calls
pub mod Effects
pub mod Law
pub mod Preserved
pub mod Terminal
pub mod EventLog
pub mod Sessions
pub mod Replay
pub mod Replayed
pub mod History
pub mod Scenarios
pub mod FirstWriter
