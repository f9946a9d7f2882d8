-- ===== src/Sql.antt =====
-- What the generator relies on of a SQL engine, which is not part of the program: three-valued
-- logic and the value of each kind of expression, as an interface with named laws.
pub mod Truth
pub mod Engine
pub mod Logic
pub mod Executor
pub mod Denotation
pub mod Rows
pub mod Reference
pub mod Clauses
mod Tests
