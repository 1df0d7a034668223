-- ===== src/Auth/Users/Consistency.antt =====
-- Sessions against accounts in internal/auth/userstore.go: what the sessions table may hold.
pub mod Lookup
pub mod Backing
pub mod Rules
pub mod Accounts
pub mod Entries
pub mod Logins
pub mod Runs
mod Tests
