-- ===== src/Core.antt =====
-- eqgen/core: the type vocabulary and the table description.
pub mod Types
pub mod Catalog
