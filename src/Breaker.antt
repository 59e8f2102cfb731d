-- ===== src/Breaker.antt =====
-- The circuit breaker of a provider's key and its manager (circuit_breaker.py). Times are whole
-- microseconds; one call reads the clock once. Logging is left out.
pub mod State
pub mod Outage
pub mod Manager
pub mod Sync
