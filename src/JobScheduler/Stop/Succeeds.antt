-- ===== src/JobScheduler/Stop/Succeeds.antt =====
-- A stop of all batches meets no error but those of the API server.
use radix_operator.Prelude.{
  String, Bool, true, false, Option, none, List, [], ◌∷◌, ◌≡◌, refl, inl, inr, ◌==◌, Bool-cases,
}
use radix_operator.Batch.Types.{RadixBatchJob, RadixBatchJobStatus, RadixBatch}
use radix_operator.JobScheduler.Stop.{
  is_batch_stoppable, is_job_finished, JobsStop, refused, stopped, with_job, request_stop,
  stop_jobs, stop_jobs_in_batch, finished, Run, update_batch, after_jobs, stop_jobs_in_batches,
  Answers, attempt, retried, done, answer_of, stop_radix_batch_job,
}

abbrev IsStopped : JobsStop → Type 0
IsStopped (refused e) = ⊥
IsStopped (stopped found applied jobs) = found ≡ false

with_job-IsStopped : (job : RadixBatchJob) (r : JobsStop) → IsStopped r → IsStopped (with_job job r)
with_job-IsStopped job (refused e) h = h
with_job-IsStopped job (stopped found applied jobs) h = h

stop_jobs-IsStopped :
    (name : String) (single : Bool) (statuses : List RadixBatchJobStatus) (applied : Bool)
    (jobs : List RadixBatchJob)
    → IsStopped (stop_jobs "" "" name single statuses false applied jobs)
unfolding stop_jobs
stop_jobs-IsStopped name single statuses applied [] = refl
stop_jobs-IsStopped name single statuses applied (job ∷ jobs) =
    let keep = stop_jobs-IsStopped name single statuses applied jobs in
    let go = stop_jobs-IsStopped name single statuses true jobs in
    elim (Bool-cases (is_job_finished statuses job)) [
      | inl f ↦
          rw f
            (with_job-IsStopped job (stop_jobs "" "" name single statuses false applied jobs) keep)
      | inr f ↦ rw f (
          with_job-IsStopped (request_stop job)
            (stop_jobs "" "" name single statuses false true jobs) go)
    ]

abbrev EndsWell : Run → Type 0
EndsWell run = run.outcome ≡ finished false false

module _ (update_error : String → Option String)
    (works : (n : String) → update_error n ≡ none) where
  after_jobs-EndsWell :
      (b : RadixBatch) (s : JobsStop) (batches : List RadixBatch) (rest : Bool → List String → Run)
      → IsStopped s
      → EndsWell (rest false [])
      → EndsWell (after_jobs update_error "" "" b s [] batches rest)
  unfolding after_jobs update_batch
  after_jobs-EndsWell b (refused e) batches rest h k = absurd h
  after_jobs-EndsWell b (stopped found false jobs) batches rest h k = rw h k
  after_jobs-EndsWell b (stopped found true jobs) batches rest h k =
      rw h (rw (works b.name, update_batch) k)

  stop_jobs_in_batches-EndsWell :
      (batches : List RadixBatch)
      → EndsWell (stop_jobs_in_batches update_error "" "" false false [] batches)
  unfolding stop_jobs_in_batches stop_jobs_in_batch
  stop_jobs_in_batches-EndsWell [] = refl
  stop_jobs_in_batches-EndsWell (b ∷ batches) =
      let ih = stop_jobs_in_batches-EndsWell batches in
      elim (Bool-cases (is_batch_stoppable b.status.condition.condition_type)) [
        | inl can ↦ rw can (
            after_jobs-EndsWell b
              (stop_jobs "" "" b.name (b.type_label == "job") b.status.job_statuses false false
                b.jobs)
              batches (λ fj es. stop_jobs_in_batches update_error "" "" false fj es batches)
              (stop_jobs-IsStopped b.name (b.type_label == "job") b.status.job_statuses false
                b.jobs)
              ih)
        | inr cannot ↦ rw cannot ih
      ]

-- A stop of all batches succeeds if the API server answers the last run without an error, whatever
-- the batches and their jobs are and whatever the runs before it met.
pub stop_all_batches_succeeds :
    (batches : List RadixBatch) (earlier : List Answers) (last : Answers)
    → last.list_error ≡ none
    → ((name : String) → last.update_error name ≡ none)
    → (stop_radix_batch_job "" "" batches earlier last).1 ≡ done
unfolding stop_radix_batch_job attempt answer_of
stop_all_batches_succeeds batches earlier last listed updated = rw listed (
    rw (stop_jobs_in_batches-EndsWell last.update_error updated (retried "" "" batches earlier))
      refl)
