-- ===== src/JobScheduler.antt =====
-- The job scheduler, job-scheduler/pkg: the status of a batch and of its jobs for the API.
pub mod Batches
pub mod History
pub mod Names
pub mod Payloads
pub mod Status
pub mod Stop
