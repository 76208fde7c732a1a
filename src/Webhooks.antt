-- ===== src/Webhooks.antt =====
-- backend/app/api/routes/webhooks.py: the events that GitHub delivers.
pub mod Payload
pub mod Bots
pub mod Push
pub mod Branches
pub mod PullRequests
pub mod Repositories
pub mod Installations
pub mod Dispatch
pub mod Verified
pub mod Deleting
pub mod Regaining
pub mod Safe
pub mod SafeAttributes
pub mod OwnBranches
