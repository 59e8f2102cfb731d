-- ===== src/Cache.antt =====
-- The cache of answers (caching.py) over the in-memory store.
pub mod Responses
pub mod Lookup
