-- ===== src/Auth.antt =====
-- Accounts of the REST API: domains/auth.
pub mod Accounts
pub mod Access
pub mod Tokens
