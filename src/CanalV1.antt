-- ===== src/CanalV1.antt =====
-- canal/v1/: which tables a statement names, the filter of its actions, the handler of DDL events
-- and the saved position.
pub mod ParseStmt
pub mod Handler
pub mod Master
pub mod Saving
pub mod Rows
pub mod FullData
mod Tests
mod CopyTests
