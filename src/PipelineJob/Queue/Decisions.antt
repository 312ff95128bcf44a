-- ===== src/PipelineJob/Queue/Decisions.antt =====
-- What the decisions of the queue tell of the jobs that they let go on.
use radix_operator.Prelude.{
  String, Bool, true, false, not, ◌&&◌, ◌≡◌, some, List, Memᴰ, find_first-some, arith,
}
use radix_operator.PipelineJob.Types.{is_queued, is_queued_or_empty, RadixJob, RadixApplication}
use radix_operator.PipelineJob.Queue.{
  should_be_queued_behind_older_jobs, is_other_job_running_on_branch_or_environment, must_queue,
  next_job_to_waiting,
}

module _ (matches_pattern : String → String → Bool) (ra : RadixApplication) where
  -- A queued or new job goes on only if neither test holds it back.
  pub must_queue_clear :
      (job : RadixJob) (jobs : List RadixJob)
      → is_queued_or_empty job.status.condition ≡ true
      → must_queue matches_pattern ra job jobs ≡ false
      → (should_be_queued_behind_older_jobs matches_pattern ra job jobs ≡ false)
        × (is_other_job_running_on_branch_or_environment matches_pattern ra job jobs ≡ false)
  unfolding must_queue
  must_queue_clear job jobs q h = ground arith

  -- The job that is promoted is one of the jobs, is queued, and is blocked by no other.
  pub next_job_clear :
      (jobs : List RadixJob) {job : RadixJob}
      → next_job_to_waiting matches_pattern ra jobs ≡ some job
      → Memᴰ job jobs
        × (is_queued job.status.condition ≡ true)
        × (is_other_job_running_on_branch_or_environment matches_pattern ra job jobs ≡ false)
  unfolding next_job_to_waiting
  next_job_clear jobs {job} h =
      let (m, test) =
        find_first-some
          (λ k.
            is_queued k.status.condition
            && not (is_other_job_running_on_branch_or_environment matches_pattern ra k jobs))
          jobs h in
      (m, ground arith, ground arith)
