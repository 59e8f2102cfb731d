-- ===== src/Store.antt =====
-- The in-memory key-value store that stands in for Redis (class InMemoryStore of redis_client.py).
-- Times are whole microseconds, and each call runs under the lock and reads the clock once.
pub mod Entry
pub mod Ops
pub mod Laws
pub mod Others
pub mod Sorted
