-- ===== src/Auth/Users/Entry.antt =====
-- Who gets in by `Login` of internal/auth/userstore.go, and for how long.
pub mod Granted
pub mod Issued
pub mod Ended
mod Tests
