-- ===== src/Gateway.antt =====
-- control-plane/internal/gateway/runnerpool.go: the tool runners that the gateway dispatches to.
pub mod Runner
pub mod Delivery
pub mod Choice
pub mod Scenarios
pub mod Ledger
pub mod Dispatching
pub mod Keys
pub mod Once
pub mod Reported
pub mod Recovery
pub mod Policy
pub mod Admitted
pub mod Exact
pub mod LedgerScenarios
pub mod PolicyScenarios
