-- ===== src/KeyPool.antt =====
-- The pools of provider keys (key_pool.py): rotation, health, back-off, and the rows of the
-- api_key_pool table behind them. Times are whole microseconds; the lock is held for a whole call,
-- so a call is one step.
pub mod Pool
pub mod Usable
pub mod Rotation
pub mod Health
pub mod Manager
pub mod Vault
pub mod Rotated
