-- ===== src/Guardrails.antt =====
-- Content policies and their evaluation on requests and responses (guardrails.py).
pub mod Tables
pub mod Policy
pub mod Detect
pub mod Request
pub mod Response
pub mod Admin
pub mod Models
pub mod Prompts
pub mod Filtered
