-- ===== src/Planning/Expressions.antt =====
-- planning/ir/expressions.py: the closed expression union and the functions over its trees.
pub mod Syntax
pub mod Traversal
pub mod Validation
pub mod Size
pub mod Subterms
pub mod Nodes
pub mod Depth
pub mod Fields
mod Tests
