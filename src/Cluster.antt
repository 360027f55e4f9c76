-- ===== src/Cluster.antt =====
-- wedb_cluster: hash slots and the configuration of a cluster.
pub mod Slot
pub mod BitmapLaws
pub mod HashSlotLaws
pub mod Config
pub mod MergeLaws
pub mod MergeSlots
pub mod RemoveLaws
pub mod Workers
pub mod WorkerLaws
pub mod Routing
pub mod SetSlot
pub mod SetSlotLaws
pub mod RoutingLaws
mod Tests
