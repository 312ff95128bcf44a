-- ===== src/JobScheduler/Batches/Restarted.antt =====
-- A restart by the job scheduler is one that the reconciliation of the batch carries out.
use radix_operator.Prelude.{
  String, true, false, Option, none, some, List, [], ◌∷◌, ◌≡◌, refl, map, ◌==◌, is_empty,
  Option-cases, find_first-some, any-false, ◌⊎◌, inl, inr, All, any, beq_comm,
}
use radix_operator.Batch.Types.{RadixBatchJob, RadixBatchJobStatus, RadixBatch, RadixBatchStatus}
use radix_operator.Batch.Phases.{
  is_batch_job_stop_requested, job_requires_restart, find_status, differs_from_status,
}
use radix_operator.JobScheduler.Batches.{set_restart_job_timeout, restart_radix_batch}

-- No status of a job has the time yet.
abbrev pub IsNewTime : String → List RadixBatchJobStatus → Type 0
IsNewTime now statuses = any (λ s. s.restart == now) statuses ≡ false

-- The reconciliation restarts the job and does not stop it.
abbrev pub Restarts : RadixBatchStatus → RadixBatchJob → Type 0
Restarts status job =
    (job_requires_restart status job ≡ true) × (is_batch_job_stop_requested job ≡ false)

restarted_job :
    (now : String) (status : RadixBatchStatus) (job : RadixBatchJob)
    → is_empty now ≡ false
    → IsNewTime now status.job_statuses
    → Restarts status (set_restart_job_timeout now job)
unfolding job_requires_restart is_batch_job_stop_requested
restarted_job now status job full fresh = (rw full (go (Option-cases current)), refl)
  where
    current : Option RadixBatchJobStatus
    current = find_status job.name status.job_statuses

    go :
        ((current ≡ none) ⊎ ((s : RadixBatchJobStatus) × (current ≡ some s)))
        → differs_from_status now current ≡ true
    go (inl e) = rw e (unfold differs_from_status in refl)
    go (inr (s, e)) =
        let (m, named) =
          find_first-some (λ x. x.name == job.name) status.job_statuses (unfold find_status in e) in
        let other = any-false (λ x. x.restart == now) status.job_statuses fresh m in
        rw e (unfold differs_from_status in rw (beq_comm now s.restart) (rw other refl))

-- A restart of a batch makes the reconciliation restart every job of it and stop none, if the
-- update succeeds and no job has been restarted at the same time before.
restart_radix_batch-Restarts :
    (now : String) (batch : RadixBatch)
    → is_empty now ≡ false
    → IsNewTime now batch.status.job_statuses
    → All
        (Restarts (restart_radix_batch none now batch).0.status)
        (restart_radix_batch none now batch).0.jobs
unfolding restart_radix_batch
restart_radix_batch-Restarts now batch full fresh = go batch.jobs
  where
    go :
        (jobs : List RadixBatchJob)
        → All (Restarts batch.status) (map (set_restart_job_timeout now) jobs)
    go [] = tt
    go (job ∷ jobs) = (restarted_job now batch.status job full fresh, go jobs)
