-- ===== src/Txn.antt =====
-- wedb_txn: optimistic transactions (WATCH, MULTI, EXEC, DISCARD, UNWATCH) over a table of versions.
pub mod Entries
pub mod EntryLaws
pub mod Versions
pub mod VersionLaws
pub mod Watched
pub mod WatchLaws
pub mod Manager
pub mod Exec
pub mod ManagerLaws
pub mod QueueLaws
pub mod Covered
pub mod Reached
pub mod Isolation
mod Tests
