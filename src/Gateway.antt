-- ===== src/Gateway.antt =====
-- The handling of a chat request (`_handle_chat` of main.py), which composes the other parts.
pub mod State
pub mod Chat
pub mod Paths
pub mod Runs
pub mod Guarded
pub mod Body
pub mod Asked
