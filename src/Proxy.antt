-- ===== src/Proxy.antt =====
-- The orchestrator (llm_proxy.py): token estimates and context truncation, the choice of provider and
-- model, and the retry and fallback loops over the key pools and the circuit breakers.
pub mod Tokens
pub mod Truncate
pub mod Resolve
pub mod Providers
pub mod Retry
pub mod Bounds
pub mod Called
pub mod Stream
pub mod Embeddings
