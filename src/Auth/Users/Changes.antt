-- ===== src/Auth/Users/Changes.antt =====
-- What the methods of internal/auth/userstore.go that change an account are good for afterwards.
mod Saved
pub mod BackupCodes
pub mod Passwords
mod Tests
