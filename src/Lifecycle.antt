-- ===== src/Lifecycle.antt =====
-- Backups and deletions of one repository, one after the other: main.cpp, `TASK_WRITE` and
-- `TASK_DELETE`.
pub mod Digests
pub mod Shelving
pub mod Stored
pub mod Placed
pub mod Appended
pub mod Chunks
pub mod Closing
pub mod Opening
pub mod Backup
pub mod Tasks
