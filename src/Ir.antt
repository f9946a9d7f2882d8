-- ===== src/Ir.antt =====
-- eqgen/ir: the expressions of generated SQL and how they are written.
pub mod Expr
pub mod Render
