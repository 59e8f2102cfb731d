-- ===== src/Security.antt =====
-- The middleware of security.py: the ban of addresses after failed logins, signed requests with a
-- nonce, the size limit, and the password rules. Times are whole microseconds.
pub mod BruteForce
pub mod Bans
pub mod Signature
pub mod Signing
pub mod Replay
pub mod Password
