-- ===== src/Planning/Join.antt =====
-- planning/join_planner.py: the deterministic join planner over a relationship graph.
pub mod Graph
pub mod Search
pub mod Planner
pub mod Hops
pub mod Invariant
pub mod Fuel
pub mod Path
pub mod Progress
pub mod Plan
pub mod Unique
pub mod Outcome
mod Tests
