-- ===== src/Auth.antt =====
-- Authentication and sessions of users (auth.py).
pub mod State
pub mod Tokens
pub mod LoggedIn
pub mod Login
pub mod Access
pub mod Endpoints
pub mod Keys
pub mod Failures
pub mod Lockout
pub mod Refreshed
pub mod Issued
pub mod Revoked
pub mod Bootstrap
pub mod Ended
