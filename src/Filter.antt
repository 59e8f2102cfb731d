-- ===== src/Filter.antt =====
-- The masking of secrets in messages and texts (data_filter.py).
pub mod Patterns
pub mod Masked
