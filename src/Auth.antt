-- ===== src/Auth.antt =====
-- The password of the web interface, src/auth_manager.cpp.
pub mod Passwords
pub mod Accounts
pub mod Digests
pub mod Strength
pub mod Logins
mod Tests
pub mod Attempts
pub mod Lockout
