-- ===== src/Events.antt =====
-- backend/app/services/github/event_handlers.py: what a GitHub event does to the tables, whether a webhook or a poll
-- brought it.
pub mod Enums
pub mod Store
pub mod Commands
pub mod Scans
pub mod Lifecycle
pub mod Attributes
pub mod Landing
pub mod Redelivery
pub mod Reopening
pub mod Touched
pub mod Queueing
pub mod OwnBranches
pub mod Commanding
