-- ===== src/Auth.antt =====
-- server/internal/auth: local accounts with their lockout, tokens, and the guards of a request.
pub mod Password
pub mod Identity
pub mod Jwt
pub mod Guards
pub mod Policy
pub mod Login
pub mod Lockout
