-- ===== src/PipelineJob.antt =====
-- The pipeline job of pkg/apis/job: its data, what it targets, the queue, its status and its
-- history.
pub mod Types
pub mod Targets
pub mod Queue
pub mod History
pub mod Status
pub mod Deletion
pub mod OnSync
