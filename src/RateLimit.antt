-- ===== src/RateLimit.antt =====
-- app/core/rate_limit.py: the in-process limiters.
pub mod Sliding
pub mod Throttle
mod Tests
