-- ===== src/Wecom.antt =====
-- wecom/: the access token of a client.
pub mod Token
mod Tests
