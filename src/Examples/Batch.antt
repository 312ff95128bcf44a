-- ===== src/Examples/Batch.antt =====
-- A batch with a job that succeeded and a job that runs.
use radix_operator.Prelude.{
  ℕ, String, Bool, true, ◌≡◌, refl, Option, none, some, List, [], ◌∷◌, All,
}
use radix_operator.Kube.Pod.{PodPhase, Pod}
use radix_operator.Kube.Job.{Job, JobConditionType}
use radix_operator.Batch.Types.{
  RadixBatchJobPhase, RadixBatchConditionType, RadixBatchJob, RadixBatchJobStatus,
  RadixBatchCondition, RadixBatchReconcileStatus, RadixBatchStatus, RadixBatch,
}
use radix_operator.Batch.JobStatus.{Observed, build_job_statuses}
use radix_operator.Batch.JobStatus.Finished.{build_job_statuses-settled}
use radix_operator.Batch.JobStatus.EndTimes.{EndsWhenDone, build_job_statuses-EndsWhenDone}
use radix_operator.Batch.JobStatus.StoppedPods.{
  StoppedIsSettled, build_job_statuses-StoppedIsSettled,
}
use radix_operator.Batch.Sync.{sync_status, Answers}
use radix_operator.Batch.Sync.Conditions.{TimesFit, sync_status-TimesFit}

abbrev pub job : String → Option Bool → RadixBatchJob
job name stop = record { name = name; job_id = ""; stop = stop; restart = "" }

abbrev job_status : String → RadixBatchJobPhase → Option ℕ → RadixBatchJobStatus
job_status name phase end_time = record {
  name = name;
  phase = phase;
  reason = "";
  message = "";
  creation_time = some 1;
  start_time = some 2;
  end_time = end_time;
  failed = 0;
  restart = "";
  pod_statuses = [];
}

abbrev done_one : RadixBatchJobStatus
done_one = job_status "one" RadixBatchJobPhase.succeeded (some 5)

abbrev active_two : RadixBatchJobStatus
active_two = job_status "two" RadixBatchJobPhase.active none

abbrev pod_of : String → List Pod
pod_of name =
    record {
      name = "pod";
      creation_timestamp = 2;
      containers = [];
      phase = PodPhase.running;
      container_statuses = [];
      conditions = [];
    }
    ∷ []

abbrev pub kube_job : Job
kube_job = record {
  name = "two-kube";
  batch_job_name = some "two";
  creation_timestamp = 1;
  status = record {
    conditions =
        record {
          condition_type = JobConditionType.failed;
          is_true = true;
          last_transition_time = 8;
          reason = "BackoffLimitExceeded";
          message = "";
        }
        ∷ [];
    start_time = some 2;
    completion_time = none;
    active = 0;
    failed_pods = 1;
    ready = none;
  };
}

abbrev pub observed : Observed
observed = record {
  now = 9;
  job_component_name = "compute";
  kube_jobs = kube_job ∷ [];
  job_pods = pod_of;
  restarted_jobs = [];
}

abbrev pub jobs : List RadixBatchJob
jobs = job "one" none ∷ job "two" (some true) ∷ []

abbrev statuses : List RadixBatchJobStatus
statuses = done_one ∷ active_two ∷ []

build_job_statuses-settled_example :
    build_job_statuses observed (done_one ∷ []) (job "one" (some true) ∷ []) ≡ done_one ∷ []
build_job_statuses-settled_example =
    build_job_statuses-settled observed (done_one ∷ []) (job "one" (some true) ∷ []) refl refl
      (refl, tt) refl

build_job_statuses-EndsWhenDone_example :
    All EndsWhenDone (build_job_statuses observed statuses jobs)
build_job_statuses-EndsWhenDone_example =
    build_job_statuses-EndsWhenDone observed statuses jobs (refl, (refl, tt))

no_pods : (s : RadixBatchJobStatus) → s.pod_statuses ≡ [] → StoppedIsSettled s
no_pods s e h = rw e tt

build_job_statuses-StoppedIsSettled_example :
    All StoppedIsSettled (build_job_statuses observed statuses jobs)
build_job_statuses-StoppedIsSettled_example =
    build_job_statuses-StoppedIsSettled observed statuses jobs
      (no_pods done_one refl, (no_pods active_two refl, tt))

abbrev condition : RadixBatchConditionType → String → Option ℕ → Option ℕ → RadixBatchCondition
condition t reason active_time completion_time = record {
  condition_type = t;
  reason = reason;
  message = "";
  active_time = active_time;
  completion_time = completion_time;
}

abbrev batch_status : List RadixBatchJobStatus → RadixBatchCondition → RadixBatchStatus
batch_status job_statuses c = record {
  job_statuses = job_statuses;
  condition = c;
  reconciled = 0;
  observed_generation = 0;
  reconcile_status = RadixBatchReconcileStatus.unset;
  message = "";
}

abbrev pub active_batch : RadixBatchStatus
active_batch = batch_status statuses (condition RadixBatchConditionType.active "" (some 3) none)

abbrev completed_batch : RadixBatchStatus
completed_batch =
    batch_status (done_one ∷ []) (condition RadixBatchConditionType.completed "" (some 3) (some 5))

abbrev pub batch : List RadixBatchJob → RadixBatchStatus → RadixBatch
batch js s = record {
  name = "batch";
  generation = 2;
  creation_timestamp = 1;
  component_label = "compute";
  type_label = "batch";
  jobs = js;
  status = s;
}

abbrev pub accepted : Answers
accepted = record { list_jobs = none; first_update = none; second_update = none }

sync_status-TimesFit_example :
    let r = sync_status observed accepted none (batch (job "one" none ∷ []) active_batch) in
    let c = r.batch.status.condition in TimesFit c.condition_type c.active_time c.completion_time
sync_status-TimesFit_example =
    sync_status-TimesFit observed accepted none (batch (job "one" none ∷ []) active_batch) refl refl
      refl
