-- ===== src/Batch/Phases.antt =====
-- The tests on phases of pkg/apis/batch/utils.go, and on restarts of pkg/apis/batch/syncer.go.
use radix_operator.Prelude.{
  String, Bool, true, false, not, ◌&&◌, Option, none, some, List, ◌==◌, is_empty, any, find_first,
  if◌then◌else◌,
}
use radix_operator.Kube.Job.{Job}
use radix_operator.Batch.Types.{
  RadixBatchJobPhase, unset, waiting, active, running, succeeded, failed, stopped,
  RadixBatchConditionType, RadixBatchJob, RadixBatchJobStatus, RadixBatchStatus, RadixBatch,
}

abbrev pub is_waiting_phase : RadixBatchJobPhase → Bool
is_waiting_phase waiting = true
is_waiting_phase unset = false
is_waiting_phase active = false
is_waiting_phase running = false
is_waiting_phase succeeded = false
is_waiting_phase failed = false
is_waiting_phase stopped = false

abbrev pub is_done_phase : RadixBatchJobPhase → Bool
is_done_phase succeeded = true
is_done_phase failed = true
is_done_phase stopped = true
is_done_phase unset = false
is_done_phase waiting = false
is_done_phase active = false
is_done_phase running = false

abbrev pub is_stopped_phase : RadixBatchJobPhase → Bool
is_stopped_phase stopped = true
is_stopped_phase succeeded = false
is_stopped_phase failed = false
is_stopped_phase unset = false
is_stopped_phase waiting = false
is_stopped_phase active = false
is_stopped_phase running = false

abbrev pub is_job_status_waiting : RadixBatchJobStatus → Bool
is_job_status_waiting s = is_waiting_phase s.phase

abbrev pub is_job_status_done : RadixBatchJobStatus → Bool
is_job_status_done s = is_done_phase s.phase

-- `b != nil && *b`
abbrev is_set : Option Bool → Bool
is_set none = false
is_set (some b) = b

unfoldable pub is_batch_job_stop_requested : RadixBatchJob → Bool
is_batch_job_stop_requested job = is_set job.stop

abbrev pub has_value : Option String → String → Bool
has_value none name = false
has_value (some value) name = value == name

-- `isKubeJobForBatchJob`: the selector on the label radix-batch-job-name.
unfoldable pub is_kube_job_for_batch_job : RadixBatchJob → Job → Bool
is_kube_job_for_batch_job batch_job job = has_value job.batch_job_name batch_job.name

-- The status of the job of a name.
unfoldable pub find_status : String → List RadixBatchJobStatus → Option RadixBatchJobStatus
find_status name = find_first (λ s. s.name == name)

unfoldable pub differs_from_status : String → Option RadixBatchJobStatus → Bool
differs_from_status restart none = true
differs_from_status restart (some current) = not (restart == current.restart)

unfoldable pub job_requires_restart : RadixBatchStatus → RadixBatchJob → Bool
unfolding find_status differs_from_status
job_requires_restart status job =
    if is_empty job.restart
    then false
    else differs_from_status job.restart (find_status job.name status.job_statuses)

abbrev is_completed : RadixBatchConditionType → Bool
is_completed RadixBatchConditionType.completed = true
is_completed RadixBatchConditionType.unset = false
is_completed RadixBatchConditionType.waiting = false
is_completed RadixBatchConditionType.active = false

unfoldable pub is_batch_done : RadixBatch → Bool
is_batch_done batch = is_completed batch.status.condition.condition_type

unfoldable pub is_batch_job_done : RadixBatchStatus → String → Bool
is_batch_job_done status name =
    any (λ s. s.name == name && is_job_status_done s) status.job_statuses

unfoldable pub is_restart_requested_for_any_batch_job : RadixBatch → Bool
unfolding job_requires_restart
is_restart_requested_for_any_batch_job batch = any (job_requires_restart batch.status) batch.jobs
