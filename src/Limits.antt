-- ===== src/Limits.antt =====
-- The two rate limiters: src/infrastructure/middleware.rs by counted windows, and
-- src/infrastructure/rate_limiter.rs by the times of the requests.
pub mod Counted
pub mod Sliding
