-- ===== src/Config.antt =====
-- eqgen/config: the weighted choices that configuration files give.
pub mod Weighted
mod Tests
