-- ===== src/Redis.antt =====
-- src/infrastructure/redis_abstraction.rs: the two guards in front of the Redis client.
pub mod Breaker
pub mod Shedder
