-- ===== src/Api.antt =====
-- internal/api/router.go: the parts of the HTTP interface that let requests in.
pub mod Limiter
pub mod Gate
pub mod Sessions
pub mod Credentials
pub mod Backups
