-- ===== src/KvcacheStore.antt =====
-- dualmap/cache_manager/kvcache_store: the simulated KV cache of one replica.
pub mod Outcome
pub mod Lru
pub mod Mgr
mod Tests
