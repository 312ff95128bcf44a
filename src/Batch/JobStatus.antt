-- ===== src/Batch/JobStatus.antt =====
-- The status of each batch job: `buildBatchJobStatus` and `buildJobStatuses` of
-- pkg/apis/batch/status.go. What the syncer reads is in `Observed`: the time, the Kubernetes jobs
-- of the batch, the pods of a batch job (none if they cannot be listed), and the batch jobs that
-- were restarted in this reconciliation.
pub mod Keeps
pub mod StoppedPods
pub mod Finished
pub mod EndTimes
use radix_operator.Prelude.{
  ℕ, String, Bool, true, false, not, ◌&&◌, Option, none, some, List, [], ◌∷◌, map, ◌==◌, ltb,
  find_first, some?, if◌then◌else◌,
}
use radix_operator.Kube.Job.{JobCondition, Job, find_success, find_failure, is_job_running}
use radix_operator.Kube.Pod.{Pod}
use radix_operator.Batch.Types.{
  RadixBatchJobPhase, waiting, active, running, succeeded, failed, stopped, RadixBatchJob,
  RadixBatchJobStatus,
}
use radix_operator.Batch.Phases.{
  is_job_status_done, is_batch_job_stop_requested, is_kube_job_for_batch_job, find_status,
}
use radix_operator.Batch.PodStatus.{update_job_and_pod_statuses}

pub record Observed : Type 0 where
  pub now : ℕ
  pub job_component_name : String
  pub kube_jobs : List Job
  pub job_pods : String → List Pod
  pub restarted_jobs : List RadixBatchJob

-- `s.restartedJobs[name]`
unfoldable pub find_restarted : String → List RadixBatchJob → Option RadixBatchJob
find_restarted name = find_first (λ j. j.name == name)

abbrev fresh_status : String → String → RadixBatchJobPhase → RadixBatchJobStatus
fresh_status name restart phase = record {
  name = name;
  phase = phase;
  reason = "";
  message = "";
  creation_time = none;
  start_time = none;
  end_time = none;
  failed = 0;
  restart = restart;
  pod_statuses = [];
}

-- The status that the function starts from: `Restart` comes from the restarted job, and `Phase`
-- and `Restart` from the current status of a job that was not restarted.
start_status : String → Option RadixBatchJob → Option RadixBatchJobStatus → RadixBatchJobStatus
start_status name (some restarted) current = fresh_status name restarted.restart waiting
start_status name none (some current) = fresh_status name current.restart current.phase
start_status name none none = fresh_status name "" waiting

-- The statuses of a job for which a stop is requested.
keep_times : Option RadixBatchJobStatus → RadixBatchJobStatus → RadixBatchJobStatus
keep_times none s = s
keep_times (some current) s = record s {
  creation_time = current.creation_time;
  start_time = current.start_time;
  failed = current.failed;
}

stopped_status : ℕ → Option RadixBatchJobStatus → RadixBatchJobStatus → RadixBatchJobStatus
unfolding keep_times
stopped_status now current s =
    keep_times current (record s { phase = stopped; end_time = some now })

ended_status : RadixBatchJobPhase → JobCondition → RadixBatchJobStatus → RadixBatchJobStatus
ended_status phase condition s = record s {
  phase = phase;
  end_time = some condition.last_transition_time;
  reason = condition.reason;
  message = condition.message;
}

abbrev has_ready_pod : Option ℕ → Bool
has_ready_pod none = false
has_ready_pod (some ready) = ltb 0 ready

-- The `if` over the conditions of the Kubernetes job, in its order.
by_conditions :
    Option JobCondition → Option JobCondition → Job → RadixBatchJobStatus → RadixBatchJobStatus
unfolding ended_status is_job_running
by_conditions (some condition) failure job s = ended_status succeeded condition s
by_conditions none (some condition) job s = ended_status failed condition s
by_conditions none none job s =
    if is_job_running job.status
    then record s { phase = if has_ready_pod job.status.ready then running else active }
    else s

kube_job_status : Job → RadixBatchJobStatus → RadixBatchJobStatus
unfolding by_conditions find_success find_failure
kube_job_status job s =
    by_conditions (find_success job.status) (find_failure job.status) job (record s {
      creation_time = some job.creation_timestamp;
      start_time = job.status.start_time;
      failed = job.status.failed_pods;
    })

-- The rest of the function, for a job without a Kubernetes job or with one.
observe_kube_job : Observed → RadixBatchJob → Option Job → RadixBatchJobStatus → RadixBatchJobStatus
unfolding kube_job_status update_job_and_pod_statuses
observe_kube_job o job none s = s
observe_kube_job o job (some kube_job) s =
    update_job_and_pod_statuses o.job_component_name (o.job_pods job.name)
      (kube_job_status kube_job s)

-- The function after its first return.
unfoldable pub observed_status :
    Observed
    → RadixBatchJob
    → Option RadixBatchJobStatus
    → RadixBatchJobStatus
    → RadixBatchJobStatus
unfolding stopped_status observe_kube_job is_batch_job_stop_requested is_kube_job_for_batch_job
observed_status o job current s =
    if is_batch_job_stop_requested job
    then update_job_and_pod_statuses o.job_component_name (o.job_pods job.name)
        (stopped_status o.now current s)
    else observe_kube_job o job (find_first (is_kube_job_for_batch_job job) o.kube_jobs) s

-- A job that is done and not restarted keeps its status.
by_current :
    Observed
    → RadixBatchJob
    → Option RadixBatchJob
    → Option RadixBatchJobStatus
    → RadixBatchJobStatus
unfolding observed_status start_status
by_current o job none (some current) =
    if is_job_status_done current
    then current
    else observed_status o job (some current) (start_status job.name none (some current))
by_current o job none none = observed_status o job none (start_status job.name none none)
by_current o job (some restarted) current =
    observed_status o job current (start_status job.name (some restarted) current)

unfoldable pub build_batch_job_status :
    Observed → List RadixBatchJobStatus → RadixBatchJob → RadixBatchJobStatus
unfolding by_current find_restarted find_status
build_batch_job_status o statuses job =
    by_current o job (find_restarted job.name o.restarted_jobs) (find_status job.name statuses)

unfoldable pub build_job_statuses :
    Observed → List RadixBatchJobStatus → List RadixBatchJob → List RadixBatchJobStatus
unfolding build_batch_job_status
build_job_statuses o statuses = map (build_batch_job_status o statuses)
