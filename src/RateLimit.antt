-- ===== src/RateLimit.antt =====
-- Request and token rates, concurrency slots and the dashboard's bookkeeping (rate_limiter.py), over
-- the in-memory store. Times are whole microseconds; one call reads the clock once.
pub mod Window
pub mod Slots
pub mod Scored
pub mod Admitted
pub mod Limit
pub mod Refined
pub mod Checks
