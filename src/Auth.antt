-- ===== src/Auth.antt =====
-- Users and their logins.
pub mod Users
pub mod Login
pub mod Lockout
pub mod Accounts
pub mod Tokens
