-- ===== src/Clients.antt =====
-- Clients, their quotas and the rates of their costs (clients.py, cost_tracker.py).
pub mod Quota
pub mod Rates
pub mod Crud
pub mod Keys
pub mod Spent
