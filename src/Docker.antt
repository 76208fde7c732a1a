-- ===== src/Docker.antt =====
-- backend/app/services/docker: what a target's Docker files are evaluated as.
pub mod Values
pub mod Compose
pub mod Documents
pub mod Lookup
pub mod Merging
pub mod Attribution
pub mod Restating
pub mod Effective
pub mod Complete
pub mod Listed
