-- ===== src/Files.antt =====
-- Files over HTTP: internal/api/files.go, the share links of internal/storage/linux.go, and
-- publicShareHandler of internal/api/router.go.
pub mod Paths
pub mod Calls
pub mod Reading
pub mod Changing
pub mod Routes
pub mod Shares
pub mod PublicShare
pub mod Pools
pub mod Trash
mod Tests
