-- ===== src/Cache.antt =====
-- src/infrastructure/cache_service.rs: the cache of accounts and their events, in memory and in Redis.
pub mod Types
pub mod Memory
pub mod Service
pub mod Warmup
pub mod Update
pub mod Bounds
pub mod Frame
pub mod Requests
pub mod Reads
pub mod Warming
