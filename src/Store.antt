-- ===== src/Store.antt =====
-- The embedded message store (store/store.go, utils/db/, utils/refcount.go).
pub mod Badger
pub mod Partition
pub mod RefCount
pub mod State
pub mod Spec
pub mod Landed
pub mod Acks
pub mod Reset
pub mod Ingest
pub mod Retrieve
pub mod Prune
pub mod Purge
pub mod Counts
pub mod Configs
pub mod Start
pub mod Feeder
