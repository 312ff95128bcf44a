-- ===== src/PipelineJob/Status.antt =====
-- The status of a pipeline job: `findJobCondition` of pkg/apis/job/kubejob.go and `syncStatus`,
-- `stopJob`, `getStoppedSteps`, `getJobStep`, `getJobSteps` and what they call, of
-- pkg/apis/job/job.go. The answers of the API server are arguments. The Kubernetes jobs of the
-- pipeline are in Pods, with their pods; `syncStatus` is in Sync.
pub mod Kept
pub mod Stopped
pub mod Pods
pub mod Sync
use radix_operator.Prelude.{
  ℕ, String, Bool, true, false, not, ◌&&◌, ◌||◌, Option, none, some, List, [], ◌∷◌, ◌++◌, map, ◌==◌,
  ◌+++◌, ltb, any, is_empty, find_first, find_all, if◌then◌else◌,
}
use radix_operator.Kube.Job.{
  JobCondition, JobStatus, is_job_succeeded, is_job_failed, is_job_running,
}
use radix_operator.Kube.Pod.{Terminated, Waiting, ContainerState, ContainerStatus}
use radix_operator.PipelineJob.Types.{
  RadixJobCondition, unset, queued, waiting, running, succeeded, failed, stopped,
  stopped_no_changes, RadixJobStepType, clone_config, pipeline_runner, clone, build_step,
  RadixJobStep, RadixJobReconcileStatus, reconcile_succeeded, reconcile_failed, RadixJobStatus,
  RadixJob,
}

-- `s != nil && s.Status != ""`
abbrev pub or_succeeded : Option RadixJobCondition → RadixJobCondition
or_succeeded none = succeeded
or_succeeded (some unset) = succeeded
or_succeeded (some queued) = queued
or_succeeded (some waiting) = waiting
or_succeeded (some running) = running
or_succeeded (some succeeded) = succeeded
or_succeeded (some failed) = failed
or_succeeded (some stopped) = stopped
or_succeeded (some stopped_no_changes) = stopped_no_changes

unfoldable pub find_job_condition : RadixJob → JobStatus → RadixJobCondition
unfolding is_job_failed is_job_succeeded is_job_running
find_job_condition rj s =
    if is_job_failed s
    then failed
    else if is_job_succeeded s
    then or_succeeded rj.status.pipeline_run_status
    else if is_job_running s
    then running
    else waiting

-- The `switch` over the state of a container, in its order.
by_state : Option Terminated → Option ℕ → Option Waiting → RadixJobStep → RadixJobStep
by_state (some t) r w step = record step {
  started = some t.started_at;
  ended = some t.finished_at;
  condition = if ltb 0 t.exit_code then failed else step.condition;
}
by_state none (some started_at) w step = record step {
  started = some started_at;
  condition = running;
}
by_state none none (some w) step = record step { condition = waiting }
by_state none none none step = step

by_container_status : Option ContainerStatus → RadixJobStep → RadixJobStep
unfolding by_state
by_container_status none step = record step { condition = waiting }
by_container_status (some c) step = by_state c.state.terminated c.state.running c.state.waiting step

unfoldable pub get_job_step :
    String
    → String
    → String
    → RadixJobStepType
    → List String
    → List String
    → Option ContainerStatus
    → RadixJobStep
unfolding by_container_status
get_job_step pod_name container_name step_name step_type components environments status =
    by_container_status status (record {
      name = step_name;
      step_type = step_type;
      condition = succeeded;
      started = none;
      ended = none;
      pod_name = pod_name;
      container_name = container_name;
      components = components;
      environments = environments;
    })

-- `step.Condition != v1.JobSucceeded && step.Condition != v1.JobFailed`
abbrev pub is_succeeded_or_failed : RadixJobCondition → Bool
is_succeeded_or_failed succeeded = true
is_succeeded_or_failed failed = true
is_succeeded_or_failed unset = false
is_succeeded_or_failed queued = false
is_succeeded_or_failed waiting = false
is_succeeded_or_failed running = false
is_succeeded_or_failed stopped = false
is_succeeded_or_failed stopped_no_changes = false

unfoldable pub stop_step : RadixJobStep → RadixJobStep
stop_step step =
    if is_succeeded_or_failed step.condition then step else record step { condition = stopped }

unfoldable pub get_stopped_steps : Bool → List RadixJobStep → Option (List RadixJobStep)
unfolding stop_step
get_stopped_steps is_running steps = if is_running then some (map stop_step steps) else none

abbrev pub is_running_condition : RadixJobCondition → Bool
is_running_condition running = true
is_running_condition unset = false
is_running_condition queued = false
is_running_condition waiting = false
is_running_condition succeeded = false
is_running_condition failed = false
is_running_condition stopped = false
is_running_condition stopped_no_changes = false

abbrev pub is_waiting_condition : RadixJobCondition → Bool
is_waiting_condition waiting = true
is_waiting_condition running = false
is_waiting_condition unset = false
is_waiting_condition queued = false
is_waiting_condition succeeded = false
is_waiting_condition failed = false
is_waiting_condition stopped = false
is_waiting_condition stopped_no_changes = false

-- The job that the syncer holds afterwards, whether the API server stored it, and the error.
pub record Outcome : Type 0 where
  pub radix_job : RadixJob
  pub is_stored : Bool
  pub error : Option String

-- An update that fails leaves the syncer's job as it was.
unfoldable pub updated : Option String → (RadixJobStatus → RadixJobStatus) → RadixJob → Outcome
updated (some e) change rj = record { radix_job = rj; is_stored = false; error = some e }
updated none change rj = record {
  radix_job = record rj { status = change rj.status };
  is_stored = true;
  error = none;
}

-- `if steps != nil { currStatus.Steps = *steps }`
abbrev or_kept : {A : Type 0} → Option A → A → A
or_kept none kept = kept
or_kept (some new) kept = new

stopped_status : ℕ → RadixJob → Option (List RadixJobStep) → RadixJobStatus → RadixJobStatus
stopped_status now rj steps s = record s {
  steps = or_kept steps s.steps;
  created = some rj.creation_timestamp;
  condition = stopped;
  ended = some now;
  reconciled = now;
  reconcile_status = reconcile_succeeded;
  observed_generation = rj.generation;
}

-- From the error of `deletePipelineJobs`, if it is called, and the answer to the update.
stop_deleted : ℕ → Option String → Option String → RadixJob → Outcome
unfolding updated stopped_status get_stopped_steps
stop_deleted now (some e) update_error rj = record {
  radix_job = rj;
  is_stored = false;
  error = some e;
}
stop_deleted now none update_error rj =
    updated update_error
      (stopped_status now rj
        (get_stopped_steps (is_running_condition rj.status.condition) rj.status.steps))
      rj

unfoldable pub stop_job : ℕ → Option String → Option String → RadixJob → Outcome
unfolding stop_deleted
stop_job now delete_error update_error rj =
    stop_deleted now
      (if is_running_condition rj.status.condition || is_waiting_condition rj.status.condition
        then delete_error
        else none)
      update_error rj
