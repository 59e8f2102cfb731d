-- ===== src/Tests.antt =====
-- The theorems at concrete inputs.
mod Keys
mod Breakers
mod Limits
mod Requests
mod Guards
mod Records
mod Policies
mod Access
mod Chats
mod Adapted
mod Catalogs
mod Owners
