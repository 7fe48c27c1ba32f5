-- ===== src/Plugins.antt =====
-- The declarative plugin registry (plugins/).
pub mod Models
pub mod Versions
pub mod Registry
pub mod Resolve
pub mod Reach
mod Tests
