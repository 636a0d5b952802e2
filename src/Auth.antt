-- ===== src/Auth.antt =====
-- internal/auth and the repositories it works on: passwords, lockout, sessions.
pub mod Store
pub mod SessionStore
pub mod Service
pub mod Access
pub mod Lockout
pub mod Refusal
pub mod Sessions
pub mod Cap
pub mod Login
pub mod Passwords
