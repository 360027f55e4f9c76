-- ===== src/Repl.antt =====
-- wedb_repl: the state of replication on a node. wedb_repl/src/backlog.rs is the module Backlog.
pub mod Role
pub mod History
pub mod Sync
pub mod Manager
pub mod Reach
pub mod SyncLaws
pub mod SafePoint
mod SessionList
mod Tests
