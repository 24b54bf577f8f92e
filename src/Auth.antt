-- ===== src/Auth.antt =====
-- Accounts, sessions and the second factor: app/services/auth_service.py,
-- app/services/mfa_service.py, the session and password rules of app/core/security.py and their
-- repositories in app/db/repositories/identity.py.
pub mod Session
pub mod Password
pub mod Tables
pub mod State
pub mod Accounts
pub mod Sessions
pub mod Passwords
pub mod Rows
pub mod Keys
pub mod Requests
pub mod Roles
pub mod Endings
pub mod Answers
pub mod Mfa
mod Tests
