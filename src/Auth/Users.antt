-- ===== src/Auth/Users.antt =====
-- internal/auth/userstore.go: accounts, sessions and logins. `State` has the store and its files;
-- the children of `Accounts`, `Sessions`, `Login` and `Recovery` have the methods.
pub mod State
pub mod Accounts
pub mod Sessions
pub mod Recovery
pub mod Login
pub mod Consistency
pub mod Entry
pub mod Samples
pub mod Changes
