-- ===== src/Assembly.antt =====
-- Drafts of semantic bundles before publication (assembly/).
pub mod Assertions
pub mod Draft
pub mod Lifecycle
pub mod Approval
pub mod Reach
mod Tests
