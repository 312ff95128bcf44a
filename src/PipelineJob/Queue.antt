-- ===== src/PipelineJob/Queue.antt =====
-- The queue of pkg/apis/job/job.go: when a job has to wait for others, and which waits no longer.
-- The jobs are those of one namespace, whose reconciliations the operator runs one at a time
-- (operator/job/controller.go locks by namespace).
pub mod Decisions
pub mod Order
pub mod Exclusion
use radix_operator.Prelude.{
  ℕ, String, Bool, true, false, not, ◌&&◌, ◌||◌, Option, none, some, List, [], ◌∷◌, map, ◌==◌, ltb,
  any, find_first, if◌then◌else◌,
}
use radix_operator.PipelineJob.Types.{
  RadixJobCondition, waiting, is_queued, is_queued_or_empty, is_waiting_or_running, is_build_job,
  get_git_ref_or_default, get_git_ref_type_or_default, RadixJob, RadixApplication,
}
use radix_operator.PipelineJob.Targets.{
  no_targets, get_target_environments, has_conflicting_target_environments,
}

-- Two builds of one git ref.
unfoldable pub builds_same_git_ref : RadixJob → RadixJob → Bool
unfolding get_git_ref_or_default get_git_ref_type_or_default
builds_same_git_ref job other =
    is_build_job job.spec.pipeline_type
    && is_build_job other.spec.pipeline_type
    && (get_git_ref_or_default job.spec.build_spec == get_git_ref_or_default other.spec.build_spec
        && get_git_ref_type_or_default job.spec.build_spec
          == get_git_ref_type_or_default other.spec.build_spec)

module _ (matches_pattern : String → String → Bool) (ra : RadixApplication) where
  abbrev pub target_conflict : RadixJob → RadixJob → Bool
  target_conflict job other =
      has_conflicting_target_environments (get_target_environments matches_pattern job ra)
        (get_target_environments matches_pattern other ra)

  -- One round of the loop of `shouldBeQueuedBehindOlderJobs`.
  unfoldable pub is_ahead_of : RadixJob → RadixJob → Bool
  unfolding has_conflicting_target_environments get_target_environments
  is_ahead_of current existing =
      if existing.name == current.name
      then false
      else if not (ltb existing.creation_timestamp current.creation_timestamp)
      then false
      else if not (is_queued_or_empty existing.status.condition)
      then false
      else target_conflict current existing

  unfoldable pub should_be_queued_behind_older_jobs : RadixJob → List RadixJob → Bool
  unfolding is_ahead_of
  should_be_queued_behind_older_jobs current = any (is_ahead_of current)

  -- One round of the loop of `isOtherJobRunningOnBranchOrEnvironment`.
  unfoldable pub blocks : RadixJob → RadixJob → Bool
  unfolding builds_same_git_ref has_conflicting_target_environments get_target_environments
  blocks job existing =
      if existing.name == job.name
      then false
      else if not (is_waiting_or_running existing.status.condition)
      then false
      else if no_targets (get_target_environments matches_pattern job ra)
      then builds_same_git_ref job existing
      else target_conflict job existing

  unfoldable pub is_other_job_running_on_branch_or_environment : RadixJob → List RadixJob → Bool
  unfolding blocks
  is_other_job_running_on_branch_or_environment job = any (blocks job)

  -- The test of `handleJobQueueing`: true if the job is queued.
  unfoldable pub must_queue : RadixJob → List RadixJob → Bool
  unfolding should_be_queued_behind_older_jobs is_other_job_running_on_branch_or_environment
  must_queue job existing =
      is_queued_or_empty job.status.condition
      && (should_be_queued_behind_older_jobs job existing
          || is_other_job_running_on_branch_or_environment job existing)

  -- The job that `setNextJobToWaiting` lets go on, of the jobs in the order of their creation.
  unfoldable pub next_job_to_waiting : List RadixJob → Option RadixJob
  unfolding is_other_job_running_on_branch_or_environment
  next_job_to_waiting rjs =
      find_first
        (λ this_job.
          is_queued this_job.status.condition
          && not (is_other_job_running_on_branch_or_environment this_job rjs))
        rjs

abbrev pub set_condition : RadixJobCondition → RadixJob → RadixJob
set_condition c job = record job { status = record job.status { condition = c } }
