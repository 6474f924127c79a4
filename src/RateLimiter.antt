-- ===== src/RateLimiter.antt =====
-- The request limits of the web interface, src/api_rate_limiter.cpp.
pub mod Buckets
pub mod Window
mod Tests
