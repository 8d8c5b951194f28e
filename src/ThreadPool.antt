-- ===== src/ThreadPool.antt =====
-- wruster/src/thread_pool.
pub mod Static
pub mod Dynamic
pub mod Pool
