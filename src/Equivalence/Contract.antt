-- ===== src/Equivalence/Contract.antt =====
-- What every builder promises of the node that it returns, and the rules by which the promise is
-- proved of a build from the promises of its children.
pub mod Yields
pub mod Promise
pub mod Selects
pub mod Splits
pub mod Rewrites
pub mod Creations
pub mod Writes
pub mod Columns
pub mod Empty
pub mod Wider
pub mod Supports
pub mod Nodes
pub mod Tree
mod Tests
pub mod Steady
pub mod Steps
pub mod Depth
pub mod Termination
pub mod Generation
pub mod Checked
