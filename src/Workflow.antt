-- ===== src/Workflow.antt =====
-- ritesmith/workflows/: the definitions of Trama workflows and their checks.
pub mod Problems
pub mod Shape
pub mod Expressions
pub mod Dfs
pub mod Graph
pub mod Worklist
pub mod Cycles
pub mod Branches
pub mod Validator
mod Tests
