-- ===== src/Equivalence.antt =====
-- eqgen/equivalence: the tree of rewrites, what is asked of its parts, and the builders.
pub mod Ast
pub mod Constraints
pub mod Context
pub mod Builders
pub mod Factory
pub mod Contract
pub mod Steps
pub mod Emitter
pub mod Names
mod Tests
