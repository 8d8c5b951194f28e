-- ===== src/Programs.antt =====
-- The programs that start a server.
pub mod Exit
pub mod Wrustatic
pub mod Wrusdummy
pub mod HelloWorld
