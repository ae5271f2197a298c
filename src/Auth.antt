-- ===== src/Auth.antt =====
-- backend/ktnmgr/services/auth.py: the limit on sign-in attempts, accounts and sessions.
pub mod Limiter
pub mod Accounts
mod Window
mod Tests
mod Sessions
mod Bootstrap
mod Issue
