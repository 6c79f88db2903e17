-- ===== src/Clickhouse.antt =====
-- clickhouse/: row events and MySQL schema statements turned into statements for ClickHouse.
pub mod Dml
pub mod Schema
pub mod Unique
pub mod Policy
pub mod Restore
pub mod Ddl
pub mod Scan
mod Tests
mod ScanTests
mod SchemaTests
