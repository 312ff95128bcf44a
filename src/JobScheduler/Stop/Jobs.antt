-- ===== src/JobScheduler/Stop/Jobs.antt =====
-- A stop of all jobs of a batch, in the loop over the jobs of one batch.
use radix_operator.Prelude.{
  String, Bool, true, false, not, ◌&&◌, List, [], ◌∷◌, map, ◌≡◌, refl, ap, inl, inr, is_empty,
  Bool-cases,
}
use radix_operator.Batch.Types.{RadixBatchJob, RadixBatchJobStatus}
use radix_operator.JobScheduler.Stop.{
  is_job_finished, JobsStop, refused, stopped, with_job, request_stop, stop_jobs,
}
use radix_operator.JobScheduler.Stop.Reference.{stop_unfinished}

-- The jobs of a batch, for a call without the name of a job.
abbrev pub StopsAll : List RadixBatchJobStatus → Bool → List RadixBatchJob → JobsStop → Type 0
StopsAll statuses applied jobs (refused e) = Unit
StopsAll statuses applied jobs (stopped found a jobs') =
    (found ≡ false)
    × (jobs' ≡ map (stop_unfinished statuses) jobs)
    × (a ≡ false → (applied ≡ false) × (jobs' ≡ jobs))

module _ (batch_name name : String) (single : Bool) (statuses : List RadixBatchJobStatus) where
  module _ (job : RadixBatchJob) (jobs : List RadixBatchJob) where
    -- The job stays as it is because it is finished.
    keep_finished :
        (applied : Bool) (r : JobsStop)
        → is_job_finished statuses job ≡ true
        → StopsAll statuses applied jobs r
        → StopsAll statuses applied (job ∷ jobs) (with_job job r)
    unfolding stop_unfinished
    keep_finished applied (refused e) f h = tt
    keep_finished applied (stopped found a jobs') f (nf, e, keep) = (
      nf,
      rw f (ap (λ (js : List RadixBatchJob). job ∷ js) e),
      λ q. ((keep q).0, ap (λ (js : List RadixBatchJob). job ∷ js) (keep q).1),
    )

    stop_unfinished_job :
        (applied : Bool) (r : JobsStop)
        → is_job_finished statuses job ≡ false
        → StopsAll statuses true jobs r
        → StopsAll statuses applied (job ∷ jobs) (with_job (request_stop job) r)
    unfolding stop_unfinished
    stop_unfinished_job applied (refused e) f h = tt
    stop_unfinished_job applied (stopped found a jobs') f (nf, e, keep) = (
      nf,
      rw f (ap (λ (js : List RadixBatchJob). request_stop job ∷ js) e),
      λ q. absurd (contradiction (keep q).0),
    )
      where
        contradiction : true ≡ false → ⊥
        contradiction c = cc

  pub stop_jobs-StopsAll :
      (applied : Bool) (jobs : List RadixBatchJob)
      → StopsAll statuses applied jobs
          (stop_jobs batch_name "" name single statuses false applied jobs)
  unfolding stop_jobs
  stop_jobs-StopsAll applied [] = (refl, refl, λ q. (q, refl))
  stop_jobs-StopsAll applied (job ∷ jobs) =
      let keep = stop_jobs-StopsAll applied jobs in
      let go = stop_jobs-StopsAll true jobs in
      elim (Bool-cases (is_job_finished statuses job)) [
        | inl f ↦ elim (Bool-cases (not (is_empty batch_name) && single)) [
          | inl one ↦ rw (f, one) tt
          | inr many ↦
              rw (f, many)
                (keep_finished job jobs applied
                  (stop_jobs batch_name "" name single statuses false applied jobs) f keep)
        ]
        | inr f ↦ rw f (
            stop_unfinished_job job jobs applied
              (stop_jobs batch_name "" name single statuses false true jobs) f go)
      ]
