-- ===== src/Polling.antt =====
-- backend/app/workers/tasks/polling.py: what a poll of the REST API does where no webhook comes.
pub mod Snapshot
pub mod Fetching
pub mod Applying
pub mod Tasks
pub mod Converging
pub mod Agreement
