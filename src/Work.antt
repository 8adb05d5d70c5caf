-- ===== src/Work.antt =====
-- control-plane/internal/work: how a run follows the immutable graph of its attempt.
pub mod Routing
pub mod Routed
pub mod Reachable
pub mod Scenarios
pub mod Attempt
pub mod Advance
pub mod Gate
pub mod Bounds
pub mod Entry
pub mod Limit
pub mod Total
pub mod Numbering
pub mod RunScenarios
