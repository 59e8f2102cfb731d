-- ===== src/Session.antt =====
-- Live sessions and their subscribers (session_manager.py), mirrored in the in-memory store.
pub mod Manager
pub mod Laws
