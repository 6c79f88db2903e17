-- ===== src/Canal.antt =====
-- canal/: the position that replication has reached and how it is saved, and the table filter.
pub mod Master
pub mod Work
pub mod Filter
pub mod Run
pub mod Export
mod Tests
mod RunTests
mod ExportTests
