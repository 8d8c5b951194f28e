-- ===== src/Server.antt =====
-- wruster/src/lib.rs: the server.
pub mod Conversation
pub mod Lifecycle
pub mod Accepting
