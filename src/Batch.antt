-- ===== src/Batch.antt =====
-- The syncer of a RadixBatch, pkg/apis/batch.
pub mod Types
pub mod Phases
pub mod PodStatus
pub mod JobStatus
pub mod Sync
pub mod Reconcile
