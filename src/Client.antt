-- ===== src/Client.antt =====
-- wruster/src/http/client.
pub mod ConnectionPool
pub mod Run
