-- ===== src/Weyos.antt =====
-- weyos/: the fields of NAT rules, in the text form that the router takes, and the client that keeps the rules of a router.
pub mod Nat
pub mod Client
pub mod Login
pub mod Protocols
mod Tests
mod ClientTests
