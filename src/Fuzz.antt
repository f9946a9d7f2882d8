-- ===== src/Fuzz.antt =====
-- eqgen/fuzz: what the harness makes of the two sides' results.
pub mod Multiset
pub mod Agreement
pub mod Exact
pub mod Verdict
pub mod Journal
pub mod Floats
pub mod Schedule
pub mod Objects
pub mod Outcome
pub mod Round
pub mod Catalogs
pub mod Samples
pub mod Sweep
pub mod Literals
mod Tests
