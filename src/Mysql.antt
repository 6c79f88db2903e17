-- ===== src/Mysql.antt =====
-- mysql/: values of table cells, the statements built from row events, the connection.
pub mod Value
pub mod Dml
pub mod Client
pub mod Schema
pub mod Dsn
pub mod Samples
mod Tests
mod ClientTests
