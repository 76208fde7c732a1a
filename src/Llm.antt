-- ===== src/Llm.antt =====
-- backend/app/services/llm: what a model's rewrite is held to.
pub mod CommentGuard
pub mod Deletions
pub mod Prose
pub mod Guarding
