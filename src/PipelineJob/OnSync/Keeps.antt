-- ===== src/PipelineJob/OnSync/Keeps.antt =====
-- What `queueJob` leaves as it is.
use radix_operator.Prelude.{ℕ, String, true, ◌≡◌, Option, arith}
use radix_operator.PipelineJob.Types.{queued, RadixJob}
use radix_operator.PipelineJob.Status.{updated}
use radix_operator.PipelineJob.Status.Kept.{Kept, updated-Kept}
use radix_operator.PipelineJob.OnSync.{queue_job, queued_status}

pub queue_job-queued :
    (now : ℕ) (update_error : Option String) (rj : RadixJob)
    → (queue_job now update_error rj).is_stored ≡ true
    → (queue_job now update_error rj).radix_job.status.condition ≡ queued
unfolding queue_job updated queued_status
queue_job-queued now update_error rj h = ground arith

pub queue_job-Kept :
    (now : ℕ) (update_error : Option String) (rj : RadixJob)
    → Kept rj (queue_job now update_error rj)
unfolding queue_job
queue_job-Kept now update_error rj = updated-Kept update_error (queued_status now rj) rj
