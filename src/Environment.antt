-- ===== src/Environment.antt =====
-- The environments of an application, pkg/apis/environment, operator/environment/handler.go and
-- operator/scheduler/tasks/environments_cleanup.go.
pub mod Sync
pub mod Cleanup
