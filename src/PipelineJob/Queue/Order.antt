-- ===== src/PipelineJob/Queue/Order.antt =====
-- In what order queued jobs go on.
use radix_operator.Prelude.{String, Bool, true, false, ◌≡◌, List, Memᴰ, ◌<◌, ◌==◌, any-false, arith}
use radix_operator.PipelineJob.Types.{is_queued_or_empty, is_done, RadixJob, RadixApplication}
use radix_operator.PipelineJob.Targets.{get_target_environments}
use radix_operator.PipelineJob.Targets.Conflict.{conflict_no_targets}
use radix_operator.PipelineJob.Queue.{
  target_conflict, is_ahead_of, blocks, should_be_queued_behind_older_jobs,
  is_other_job_running_on_branch_or_environment, must_queue,
}
use radix_operator.PipelineJob.Queue.Decisions.{must_queue_clear}

module _ (matches_pattern : String → String → Bool) (ra : RadixApplication) where
  -- When `handleJobQueueing` lets a queued or new job go on, every other job of the namespace
  -- that was created before it and shares a target environment with it is done. The promotion of a
  -- queued job by `setNextJobToWaiting` is another way, for which this does not hold.
  pub start_after_older :
      (job k : RadixJob) (jobs : List RadixJob)
      → is_queued_or_empty job.status.condition ≡ true
      → must_queue matches_pattern ra job jobs ≡ false
      → Memᴰ k jobs
      → (k.name == job.name) ≡ false
      → k.creation_timestamp < job.creation_timestamp
      → target_conflict matches_pattern ra job k ≡ true
      → is_done k.status.condition ≡ true
  unfolding should_be_queued_behind_older_jobs is_other_job_running_on_branch_or_environment
  start_after_older job k jobs q free m differ older shared =
      let clear = must_queue_clear matches_pattern ra job jobs q free in
      let not_ahead = any-false (is_ahead_of matches_pattern ra job) jobs clear.0 m in
      let not_blocking = any-false (blocks matches_pattern ra job) jobs clear.1 m in
      ground (
        arith,
        conflict_no_targets (get_target_environments matches_pattern job ra)
            (get_target_environments matches_pattern k ra),
      )
