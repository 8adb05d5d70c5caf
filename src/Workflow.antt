-- ===== src/Workflow.antt =====
-- control-plane/internal/workflow: the immutable graph contract and its validation.
pub mod Json
pub mod Spec
pub mod Gate
pub mod Values
pub mod Results
pub mod Depth
pub mod Effective
pub mod Collected
pub mod Fuel
pub mod ResultFields
pub mod Walk
pub mod Validate
pub mod Contract
pub mod Nodes
pub mod Routes
pub mod Accepted
