-- ===== src/StateMachines.antt =====
-- backend/app/services/state_machines: one module per file of the package.
pub mod Signals
pub mod Base
pub mod Fix
pub mod Scan
pub mod Finding
pub mod PullRequest
pub mod Repository
pub mod CloudAccount
pub mod Telemetry
pub mod Billing
pub mod EngineTarget
pub mod Graphs
