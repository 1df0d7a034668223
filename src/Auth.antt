-- ===== src/Auth.antt =====
-- internal/auth: who may come in, and as whom.
pub mod BruteForce
pub mod Crypto
pub mod Password
pub mod Policy
pub mod Totp
pub mod Users
pub mod ApiKeys
pub mod Samples
