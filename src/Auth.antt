-- ===== src/Auth.antt =====
-- Logins and sessions: apps/api/src/auth.
pub mod Cache
pub mod Signature
pub mod Tokens
pub mod Nonces
pub mod Login
pub mod Session
