-- ===== src/Batch/JobStatus/EndTimes.antt =====
-- The end times of the statuses that `buildJobStatuses` of pkg/apis/batch/status.go makes.
use radix_operator.Prelude.{◌≡◌, false, Option, none, List, All, some?, arith}
use radix_operator.Batch.Types.{RadixBatchJob, RadixBatchJobStatus}
use radix_operator.Batch.Phases.{is_done_phase}
use radix_operator.Batch.JobStatus.{Observed, observed_status, build_job_statuses}
use radix_operator.Batch.JobStatus.Keeps.{build_job_statuses-keeps}

-- The phase is final exactly when the end time is there.
abbrev pub EndsWhenDone : RadixBatchJobStatus → Type 0
EndsWhenDone s = is_done_phase s.phase ≡ some? s.end_time

observed_status-EndsWhenDone :
    (o : Observed) (job : RadixBatchJob) (current : Option RadixBatchJobStatus)
    (s : RadixBatchJobStatus)
    → is_done_phase s.phase ≡ false
    → s.end_time ≡ none
    → EndsWhenDone (observed_status o job current s)
unfolding observed_status
observed_status-EndsWhenDone o job current s open_phase no_end = ground arith

-- If every status that the batch has keeps this rule, so does every status that a sync computes:
-- a job status has an end time exactly when its phase is Succeeded, Failed or Stopped.
pub build_job_statuses-EndsWhenDone :
    (o : Observed) (statuses : List RadixBatchJobStatus) (jobs : List RadixBatchJob)
    → All EndsWhenDone statuses
    → All EndsWhenDone (build_job_statuses o statuses jobs)
build_job_statuses-EndsWhenDone o statuses jobs h =
    build_job_statuses-keeps EndsWhenDone o (observed_status-EndsWhenDone o) statuses jobs h
