-- ===== src/Tests.antt =====
-- Concrete inputs: what the definitions answer on them, and the theorems at them.
mod Samples
mod Machines
mod Billing
mod Tasks
mod Sync
mod Maintenance
mod Docker
mod Retry
mod Guard
mod Hub
mod Events
mod Webhooks
mod Polling
