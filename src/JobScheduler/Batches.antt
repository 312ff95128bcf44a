-- ===== src/JobScheduler/Batches.antt =====
-- The batches of the job scheduler, job-scheduler/pkg/batch/batch.go: restart, copy and deletion. `format` gives the
-- text of a time with a precision of seconds, and `create_job_name` the random names.
pub mod Restarted
use radix_operator.Prelude.{
  ℕ, suc, String, Bool, true, false, not, ◌&&◌, Option, none, some, List, [], ◌∷◌, map, ◌==◌,
  is_empty, find_all, if◌then◌else◌,
}
use radix_operator.Batch.Types.{RadixBatchJob, RadixBatch}

-- `setRestartJobTimeout`
abbrev pub set_restart_job_timeout : String → RadixBatchJob → RadixBatchJob
set_restart_job_timeout now job = record job { stop = none; restart = now }

-- The stored batch after the update, which the API server may refuse.
abbrev pub update_jobs :
    Option String → RadixBatch → List RadixBatchJob → RadixBatch × Option String
update_jobs none batch jobs = (record batch { jobs = jobs }, none)
update_jobs (some e) batch jobs = (batch, some e)

unfoldable pub restart_radix_batch :
    Option String → String → RadixBatch → RadixBatch × Option String
restart_radix_batch update_error now batch =
    update_jobs update_error batch (map (set_restart_job_timeout now) batch.jobs)

abbrev prepend_job : RadixBatchJob → Option (List RadixBatchJob) → Option (List RadixBatchJob)
prepend_job job none = none
prepend_job job (some jobs) = some (job ∷ jobs)

-- The first job of the name restarts; `none` if there is none.
unfoldable pub restart_named : String → String → List RadixBatchJob → Option (List RadixBatchJob)
restart_named now job_name [] = none
restart_named now job_name (job ∷ jobs) =
    let rest = prepend_job job (restart_named now job_name jobs) in
    if job.name == job_name then some (set_restart_job_timeout now job ∷ jobs) else rest

-- The text of the error "job %s not found" is left out.
unfoldable pub restart_radix_batch_job :
    Option String → String → String → RadixBatch → RadixBatch × Option String
unfolding restart_named
restart_radix_batch_job update_error now job_name batch =
    elim (restart_named now job_name batch.jobs) [
      | none ↦ (batch, some job_name)
      | some jobs ↦ update_jobs update_error batch jobs
    ]

module _ (create_job_name : ℕ → String) where
  -- The jobs that are copied, each with a new name; the number counts the names.
  unfoldable pub copy_batch_jobs : ℕ → String → List RadixBatchJob → List RadixBatchJob
  copy_batch_jobs n source_job_name [] = []
  copy_batch_jobs n source_job_name (job ∷ jobs) =
      let skip = copy_batch_jobs n source_job_name jobs in
      let copied =
        record job { name = create_job_name n } ∷ copy_batch_jobs (suc n) source_job_name jobs in
      if not (is_empty source_job_name) && not (job.name == source_job_name) then skip else copied

-- The answers to the requests of `DeleteRadixBatchByName`. GetRadixBatch turns the error of the
-- API server into an error of the job scheduler, so the test on NotFound that follows is never met.
pub data DeleteAnswer : Type 0 where
  get_failed : String → DeleteAnswer
  delete_failed : String → DeleteAnswer
  gone : DeleteAnswer
  deleted : DeleteAnswer

unfoldable pub without_batch : String → List RadixBatch → List RadixBatch
without_batch name = find_all (λ b. not (b.name == name))

unfoldable pub delete_radix_batch_by_name :
    DeleteAnswer → String → List RadixBatch → List RadixBatch × Option String
unfolding without_batch
delete_radix_batch_by_name (get_failed e) name batches = (batches, some e)
delete_radix_batch_by_name (delete_failed e) name batches = (batches, some e)
delete_radix_batch_by_name gone name batches = (without_batch name batches, none)
delete_radix_batch_by_name deleted name batches = (without_batch name batches, none)
