-- ===== src/JobScheduler/Stop.antt =====
-- The stop of batches and of their jobs: stopRadixBatchJob, stopJobsInBatches and stopJobsInBatch
-- of job-scheduler/pkg/batch/batch.go. The state is the list of the batches that the API server
-- stores for the labels of the call. An empty name of a batch or of a job means all of them.
pub mod Reference
pub mod Jobs
pub mod Runs
pub mod Refines
pub mod Succeeds
use radix_operator.Prelude.{
  ℕ, String, Bool, true, false, not, ◌&&◌, ◌||◌, Option, none, some, List, [], ◌∷◌, ◌++◌, ◌==◌,
  is_empty, equal_fold, find_first, if◌then◌else◌,
}
use radix_operator.Batch.Types.{
  RadixBatchJobPhase, RadixBatchConditionType, RadixBatchJob, RadixBatchJobStatus, RadixBatch,
}
use radix_operator.JobScheduler.Status.{phase_text, condition_type_text}

abbrev pub is_radix_batch_job_succeeded : RadixBatchJobStatus → Bool
is_radix_batch_job_succeeded s =
    phase_text s.phase == "Succeeded" || phase_text s.phase == "Stopped"

abbrev pub is_radix_batch_job_failed : RadixBatchJobStatus → Bool
is_radix_batch_job_failed s = phase_text s.phase == "Failed"

abbrev pub is_batch_stoppable : RadixBatchConditionType → Bool
is_batch_stoppable RadixBatchConditionType.unset = true
is_batch_stoppable RadixBatchConditionType.active = true
is_batch_stoppable RadixBatchConditionType.waiting = true
is_batch_stoppable RadixBatchConditionType.completed = false

-- The requests that are refused: a batch, a batch of one job or a job that is finished, and
-- names that are not found.
pub data StopError : Type 0 where
  batch_not_stoppable : String → StopError
  single_job_finished : String → StopError
  job_finished : String → StopError
  batch_not_found : String → StopError
  job_not_found : String → StopError

finished_status : Option RadixBatchJobStatus → Bool
finished_status none = false
finished_status (some s) = is_radix_batch_job_succeeded s || is_radix_batch_job_failed s

unfoldable pub is_job_finished : List RadixBatchJobStatus → RadixBatchJob → Bool
unfolding finished_status
is_job_finished statuses job = finished_status (find_first (λ s. s.name == job.name) statuses)

-- Whether the job was found, whether something was changed, and the jobs of the batch.
pub data JobsStop : Type 0 where
  refused : StopError → JobsStop
  stopped : Bool → Bool → List RadixBatchJob → JobsStop

abbrev pub with_job : RadixBatchJob → JobsStop → JobsStop
with_job job (refused e) = refused e
with_job job (stopped found applied jobs) = stopped found applied (job ∷ jobs)

abbrev pub request_stop : RadixBatchJob → RadixBatchJob
request_stop job = record job { stop = some true }

-- The loop of `stopJobsInBatch`; `single` says that the label of the batch is that of a single job.
module _ (batch_name job_name name : String) (single : Bool)
    (statuses : List RadixBatchJobStatus) where
  unfoldable pub stop_jobs : Bool → Bool → List RadixBatchJob → JobsStop
  unfolding is_job_finished
  stop_jobs found applied [] = stopped found applied []
  stop_jobs found applied (job ∷ jobs) =
      let skip = with_job job (stop_jobs found applied jobs) in
      let now_found = found || not (is_empty job_name) in
      let go_on = with_job job (stop_jobs now_found applied jobs) in
      let stop_next = with_job (request_stop job) (stop_jobs now_found true jobs) in
      if not (is_empty job_name) && not (equal_fold job.name job_name)
      then skip
      else if is_job_finished statuses job
      then (if not (is_empty batch_name) && single
          then refused (single_job_finished name)
          else if not (is_empty job_name)
          then refused (job_finished job_name)
          else go_on)
      else if now_found
      then stopped now_found true (request_stop job ∷ jobs)
      else stop_next

unfoldable pub stop_jobs_in_batch : String → String → Bool → RadixBatch → JobsStop
unfolding stop_jobs
stop_jobs_in_batch batch_name job_name found_job batch =
    stop_jobs batch_name job_name batch.name (batch.type_label == "job") batch.status.job_statuses
      found_job false batch.jobs

-- The end of a run over the batches: a refusal, the errors of the updates, or what was found.
pub data Outcome : Type 0 where
  external : StopError → Outcome
  failed : List String → Outcome
  finished : Bool → Bool → Outcome

-- The batches that the API server stores after the run, and its end.
pub record Run : Type 0 where
  pub batches : List RadixBatch
  pub outcome : Outcome

abbrev pub with_batch : RadixBatch → Run → Run
with_batch batch run = record run { batches = batch ∷ run.batches }

abbrev pub end_of : List String → Bool → Bool → Outcome
end_of [] found_batch found_job = finished found_batch found_job
end_of (e ∷ es) found_batch found_job = failed (e ∷ es)

-- `update_error` is the answer of the API server to the update of a batch.
module _ (update_error : String → Option String) (batch_name job_name : String) where
  -- The update of the batch; the rest of the loop takes the errors.
  unfoldable pub update_batch :
      RadixBatch → Bool → List RadixBatchJob → List String → (List String → Run) → Run
  update_batch batch false jobs errs rest = with_batch batch (rest errs)
  update_batch batch true jobs errs rest = elim (update_error batch.name) [
    | none ↦ with_batch (record batch { jobs = jobs }) (rest errs)
    | some e ↦ with_batch batch (rest (errs ++ e ∷ []))
  ]

  -- From the answer of `stopJobsInBatch`.
  unfoldable pub after_jobs :
      RadixBatch → JobsStop → List String → List RadixBatch → (Bool → List String → Run) → Run
  unfolding update_batch
  after_jobs batch (refused e) errs batches rest = record {
    batches = batch ∷ batches;
    outcome = external e;
  }
  after_jobs batch (stopped found_job applied jobs) errs batches rest =
      update_batch batch applied jobs errs (rest found_job)

  unfoldable pub stop_jobs_in_batches : Bool → Bool → List String → List RadixBatch → Run
  unfolding stop_jobs_in_batch after_jobs
  stop_jobs_in_batches found_batch found_job errs [] = record {
    batches = [];
    outcome = end_of errs found_batch found_job;
  }
  stop_jobs_in_batches found_batch found_job errs (batch ∷ batches) =
      let skip = with_batch batch (stop_jobs_in_batches found_batch found_job errs batches) in
      let now_found = found_batch || not (is_empty batch_name) in
      let visit =
        after_jobs batch (stop_jobs_in_batch batch_name job_name found_job batch) errs batches
          (λ fj es. stop_jobs_in_batches now_found fj es batches) in
      if not (is_empty batch_name) && not (equal_fold batch.name batch_name)
      then skip
      else if is_batch_stoppable batch.status.condition.condition_type
      then visit
      else if is_empty batch_name
      then skip
      else record { batches = batch ∷ batches; outcome = external (batch_not_stoppable batch.name) }

-- The answers of the API server to one run of the function that is retried.
pub record Answers : Type 0 where
  pub list_error : Option String
  pub update_error : String → Option String

-- One run of that function.
unfoldable pub attempt : String → String → List RadixBatch → Answers → Run
unfolding stop_jobs_in_batches
attempt batch_name job_name batches answers = elim answers.list_error [
  | some e ↦ record { batches = batches; outcome = failed (e ∷ []) }
  | none ↦ stop_jobs_in_batches answers.update_error batch_name job_name false false [] batches
]

-- The batches after the runs that are retried because of a conflict. Between two runs no other
-- client changes them; a last run from batches that one has changed is a stop without earlier runs.
unfoldable pub retried : String → String → List RadixBatch → List Answers → List RadixBatch
unfolding attempt
retried batch_name job_name batches [] = batches
retried batch_name job_name batches (a ∷ as') =
    retried batch_name job_name (attempt batch_name job_name batches a).batches as'

-- What the call returns.
pub data StopAnswer : Type 0 where
  done : StopAnswer
  refusal : StopError → StopAnswer
  update_failed : List String → StopAnswer

unfoldable pub answer_of : String → String → Outcome → StopAnswer
answer_of batch_name job_name (external e) = refusal e
answer_of batch_name job_name (failed errs) = update_failed errs
answer_of batch_name job_name (finished found_batch found_job) =
    if not (is_empty batch_name) && not found_batch
    then refusal (batch_not_found batch_name)
    else if not (is_empty job_name) && not found_job
    then refusal (job_not_found job_name)
    else done

-- The runs before the last one, and the last one, which gives the answer.
unfoldable pub stop_radix_batch_job :
    String → String → List RadixBatch → List Answers → Answers → List RadixBatch × StopAnswer
unfolding attempt retried answer_of
stop_radix_batch_job batch_name job_name batches earlier last =
    let run = attempt batch_name job_name (retried batch_name job_name batches earlier) last in
    (run.batches, answer_of batch_name job_name run.outcome)
