-- ===== src/Router.antt =====
-- wruster/src/router.
pub mod Trie
pub mod Routes
pub mod Normalize
