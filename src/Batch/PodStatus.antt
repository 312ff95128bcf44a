-- ===== src/Batch/PodStatus.antt =====
-- The pod statuses of a batch job: `updateJobAndPodStatuses` of pkg/apis/batch/status.go and what
-- it calls. A status that Go changes through a pointer is returned. The job status that
-- `buildBatchJobStatus` hands over has no pod status yet, so the map from pod names to statuses is
-- empty and each pod adds one; `update_job_and_pod_statuses` starts from no pod status for that
-- reason.
use radix_operator.Prelude.{
  ℕ, ◌+◌, String, Bool, true, false, ◌&&◌, Option, none, some, List, [], ◌∷◌, ◌==◌, is_empty, ltb,
  nat_beq, find_first, equal_fold, ◌+++◌, if◌then◌else◌,
}
use radix_operator.Kube.Pod.{
  PodPhase, Terminated, Waiting, ContainerStatus, Container, PodCondition, Pod,
}
use radix_operator.Batch.Types.{
  RadixBatchJobPhase, RadixBatchJobPodPhase, pending, running, succeeded, failed, unknown, stopped,
  RadixBatchJobPodStatus, RadixBatchJobStatus,
}
use radix_operator.Batch.Phases.{is_stopped_phase}

-- `radixv1.RadixBatchJobPodPhase(pod.Status.Phase)`
abbrev pub to_pod_phase : PodPhase → RadixBatchJobPodPhase
to_pod_phase PodPhase.pending = pending
to_pod_phase PodPhase.running = running
to_pod_phase PodPhase.succeeded = succeeded
to_pod_phase PodPhase.failed = failed
to_pod_phase PodPhase.unknown = unknown

abbrev pub is_pending_or_running : RadixBatchJobPodPhase → Bool
is_pending_or_running pending = true
is_pending_or_running running = true
is_pending_or_running succeeded = false
is_pending_or_running failed = false
is_pending_or_running unknown = false
is_pending_or_running stopped = false

unfoldable pub pod_state_phase_should_be_stopped :
    RadixBatchJobPhase → RadixBatchJobPodStatus → Bool
pod_state_phase_should_be_stopped job_phase pod_status =
    is_stopped_phase job_phase && is_pending_or_running pod_status.phase

-- The last statement of each function that sets a phase.
unfoldable pub stop_if_job_stopped :
    RadixBatchJobPhase → RadixBatchJobPodStatus → RadixBatchJobPodStatus
unfolding pod_state_phase_should_be_stopped
stop_if_job_stopped job_phase pod_status =
    if pod_state_phase_should_be_stopped job_phase pod_status
    then record pod_status { phase = stopped }
    else pod_status

abbrev image_of : Option Container → String
image_of none = ""
image_of (some container) = container.image

unfoldable pub get_image_in_pod_spec : String → Pod → String
get_image_in_pod_spec container_name pod =
    image_of (find_first (λ c. c.name == container_name) pod.containers)

unfoldable pub get_job_component_container_status : String → Pod → Option ContainerStatus
get_job_component_container_status container_name pod =
    find_first (λ c. c.name == container_name) pod.container_statuses

-- The status that a pod without one gets; `index` is the number of statuses before it.
unfoldable pub create_pod_status_for_pod :
    Pod → RadixBatchJobPhase → ℕ → String → RadixBatchJobPodStatus
unfolding stop_if_job_stopped get_image_in_pod_spec
create_pod_status_for_pod pod job_phase index job_component_name =
    record (stop_if_job_stopped job_phase (record {
      name = pod.name;
      phase = to_pod_phase pod.phase;
      reason = "";
      message = "";
      exit_code = 0;
      creation_time = some pod.creation_timestamp;
      start_time = none;
      end_time = none;
      restart_count = 0;
      image = "";
      image_id = "";
      pod_index = index;
    })) { image = get_image_in_pod_spec job_component_name pod }

-- A reason of memory shortage is put on a line before the message.
unfoldable pub extend_message : String → String → String
extend_message reason message =
    if reason == "OOMKilled"
    then if is_empty message then "Out of memory." else "Out of memory.\n" +++ message
    else message

terminated_status : Terminated → RadixBatchJobPodStatus → RadixBatchJobPodStatus
unfolding extend_message
terminated_status t s = record s {
  phase = failed;
  reason = t.reason;
  exit_code = t.exit_code;
  start_time = some t.started_at;
  end_time = some t.finished_at;
  message = extend_message t.reason t.message;
}

completed_status : Terminated → RadixBatchJobPodStatus → RadixBatchJobPodStatus
completed_status t s = record s {
  phase = succeeded;
  reason = t.reason;
  message = t.message;
  exit_code = 0;
  start_time = some t.started_at;
  end_time = some t.finished_at;
}

by_terminated : RadixBatchJobPhase → Terminated → RadixBatchJobPodStatus → RadixBatchJobPodStatus
unfolding terminated_status completed_status stop_if_job_stopped
by_terminated job_phase t s =
    if equal_fold t.reason "Completed" && nat_beq t.exit_code 0
    then completed_status t s
    else stop_if_job_stopped job_phase (terminated_status t s)

-- The `switch` over the pointers of a container's state, in its order.
by_state :
    RadixBatchJobPhase
    → Option ℕ
    → Option Waiting
    → Option Terminated
    → RadixBatchJobPodStatus
    → RadixBatchJobPodStatus
unfolding by_terminated
by_state job_phase (some started_at) w t s =
    stop_if_job_stopped job_phase (record s { phase = running; start_time = some started_at })
by_state job_phase none (some w) t s =
    stop_if_job_stopped job_phase
      (record s { phase = pending; message = w.message; reason = w.reason })
by_state job_phase none none (some t) s = by_terminated job_phase t s
by_state job_phase none none none s = stop_if_job_stopped job_phase s

unfoldable pub set_pod_status_by_pod_last_container_status :
    ContainerStatus → RadixBatchJobPhase → RadixBatchJobPodStatus → RadixBatchJobPodStatus
unfolding by_state
set_pod_status_by_pod_last_container_status c job_phase s =
    by_state job_phase c.state.running c.state.waiting c.state.terminated
      (record s { restart_count = c.restart_count; image_id = c.image_id })

-- The first element after the sort: of the latest conditions, the one that stands first.
unfoldable pub latest_condition : PodCondition → List PodCondition → PodCondition
latest_condition best [] = best
latest_condition best (c ∷ cs) =
    latest_condition (if ltb best.last_transition_time c.last_transition_time then c else best) cs

unfoldable pub set_pod_status_by_pod_condition :
    PodPhase
    → List PodCondition
    → RadixBatchJobPhase
    → RadixBatchJobPodStatus
    → RadixBatchJobPodStatus
unfolding latest_condition stop_if_job_stopped
set_pod_status_by_pod_condition phase [] job_phase s = s
set_pod_status_by_pod_condition phase (c ∷ cs) job_phase s =
    let latest = latest_condition c cs in
    stop_if_job_stopped job_phase
      (record s { reason = latest.reason; message = latest.message; phase = to_pod_phase phase })

-- The body of the loop over the pods.
by_container :
    Option ContainerStatus
    → Pod
    → RadixBatchJobPhase
    → RadixBatchJobPodStatus
    → RadixBatchJobPodStatus
unfolding set_pod_status_by_pod_last_container_status set_pod_status_by_pod_condition
by_container (some c) pod job_phase s = set_pod_status_by_pod_last_container_status c job_phase s
by_container none pod job_phase s =
    set_pod_status_by_pod_condition pod.phase pod.conditions job_phase s

unfoldable pub pod_status_of_pod : String → RadixBatchJobPhase → ℕ → Pod → RadixBatchJobPodStatus
unfolding by_container create_pod_status_for_pod get_job_component_container_status
pod_status_of_pod job_component_name job_phase index pod =
    by_container (get_job_component_container_status job_component_name pod) pod job_phase
      (create_pod_status_for_pod pod job_phase index job_component_name)

-- The loop over the pods; `index` is the number of pods before them.
unfoldable pub pod_statuses_from :
    String → RadixBatchJobPhase → ℕ → List Pod → List RadixBatchJobPodStatus
unfolding pod_status_of_pod
pod_statuses_from job_component_name job_phase index [] = []
pod_statuses_from job_component_name job_phase index (pod ∷ pods) =
    pod_status_of_pod job_component_name job_phase index pod
    ∷ pod_statuses_from job_component_name job_phase (index + 1) pods

unfoldable pub update_job_and_pod_statuses :
    String → List Pod → RadixBatchJobStatus → RadixBatchJobStatus
unfolding pod_statuses_from
update_job_and_pod_statuses job_component_name pods status = record status {
  pod_statuses = pod_statuses_from job_component_name status.phase 0 pods;
}
