-- ===== src/Protocol.antt =====
-- The client and the server together: what the client's messages do at the server, and what comes
-- back.
pub mod Messages
pub mod Login
pub mod Board
pub mod Port
pub mod Grant
