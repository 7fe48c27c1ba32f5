-- ===== src/Memory.antt =====
-- Memory that survives a single question (memory/).
pub mod Models
pub mod Provider
pub mod Recall
pub mod Valid
pub mod Compact
pub mod Reach
pub mod Ids
pub mod Expired
mod Tests
