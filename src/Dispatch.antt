-- ===== src/Dispatch.antt =====
-- control-plane/internal/dispatch/workerpool.go: one warm worker's connection, and the pool of them.
-- The lock of a method makes it one step; `time.Now()` is an argument; a float64 that is only
-- stored is its bit pattern; a `*workerConn` is an address into a heap of records.
pub mod Conn
pub mod Credit
pub mod Pool
pub mod Picking
pub mod Gates
pub mod Sync
pub mod Registry
pub mod Sending
pub mod Teardown
pub mod Scenarios
