-- ===== src/WeyosV1.antt =====
-- weyos/v1/: the NAT rules of a router, their text form and the list that holds them.
pub mod Struct
pub mod Codec
pub mod Records
pub mod Client
pub mod Traffic
mod Tests
mod ClientTests
