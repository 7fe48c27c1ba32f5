-- ===== src/Workflow.antt =====
-- The workflow core (src/nl2data_core/workflow): immutable states, validated transitions, the
-- in-memory and the SQLite state store, durable snapshots, and the steps of the durable runner.
pub mod Models
pub mod Transitions
pub mod Store
pub mod Snapshot
pub mod Contract
pub mod Sqlite
pub mod Runner
mod Tests
mod StoreTests
