-- ===== src/Tests.antt =====
-- Concrete runs of the theorems, on small inputs.
pub mod Toy
mod Backups
mod Later
mod Reads
mod Indexes
mod Chunks
mod Queues
mod Configs
mod Deletes
mod Kept
mod Deletions
mod Pipelines
mod Files
mod Trees
mod Marked
mod Sessions
mod Histories
