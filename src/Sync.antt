-- ===== src/Sync.antt =====
-- internal/sync/sync.go: installation of a certificate and its key as one pair of files.
pub mod Staging
pub mod Written
pub mod Restore
pub mod Rollback
pub mod Undo
pub mod Install
pub mod Backup
pub mod Fallback
pub mod Whole
pub mod Pair
pub mod Promises
pub mod Replace
