-- ===== src/Planning.antt =====
-- The planning core (src/nl2data_core/planning): the expression algebra of the query IR
-- and the join planner.
pub mod Expressions
pub mod Join
