-- ===== src/Equivalence/Builders.antt =====
-- eqgen/equivalence/builders: one function for each builder's `_build`, over what the factory
-- returns for the children that it asks for.
pub mod Base
pub mod Creates
pub mod Selects
pub mod Partitioning
pub mod Rewrites
