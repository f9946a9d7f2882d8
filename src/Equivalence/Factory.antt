-- ===== src/Equivalence/Factory.antt =====
-- eqgen/equivalence/factory.py and the builder factory under it: which builder runs.
pub mod Classes
pub mod Dispatch
