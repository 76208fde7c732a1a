-- ===== src/Billing.antt =====
-- backend/app/services/billing, with backend/app/core/plans.py.
pub mod Plans
pub mod Store
pub mod Owner
pub mod Usage
pub mod Calendar
pub mod Lifecycle
pub mod Errors
pub mod Quota
pub mod Tasks
pub mod Warnings
