-- ===== src/Batch/JobStatus/StoppedPods.antt =====
-- The pod statuses of stopped jobs, pkg/apis/batch/status.go.
use radix_operator.Prelude.{
  ℕ, ◌+◌, String, true, false, ◌≡◌, find_first, Option, none, some, List, [], ◌∷◌, All, arith,
  Bool-cases, inl, inr,
}
use radix_operator.Kube.Job.{Job}
use radix_operator.Kube.Pod.{Pod}
use radix_operator.Batch.Types.{
  RadixBatchJob, RadixBatchJobPhase, RadixBatchJobStatus, RadixBatchJobPodStatus,
}
use radix_operator.Batch.Phases.{
  is_done_phase, is_stopped_phase, is_batch_job_stop_requested, is_kube_job_for_batch_job,
}
use radix_operator.Batch.PodStatus.{
  is_pending_or_running, pod_status_of_pod, pod_statuses_from, update_job_and_pod_statuses,
}
use radix_operator.Batch.JobStatus.{
  Observed, observed_status, stopped_status, observe_kube_job, kube_job_status, build_job_statuses,
}
use radix_operator.Batch.JobStatus.Keeps.{build_job_statuses-keeps}

-- No pod of the status is pending or running.
abbrev pub PodsAreSettled : List RadixBatchJobPodStatus → Type 0
PodsAreSettled = All (λ p. is_pending_or_running p.phase ≡ false)

abbrev pub StoppedIsSettled : RadixBatchJobStatus → Type 0
StoppedIsSettled s = is_stopped_phase s.phase ≡ true → PodsAreSettled s.pod_statuses

pod_status_of_pod-settled :
    (component : String) (phase : RadixBatchJobPhase) (index : ℕ) (pod : Pod)
    → is_stopped_phase phase ≡ true
    → is_pending_or_running (pod_status_of_pod component phase index pod).phase ≡ false
unfolding pod_status_of_pod
pod_status_of_pod-settled component phase index pod h = ground arith

pod_statuses_from-settled :
    (component : String) (phase : RadixBatchJobPhase) (index : ℕ) (pods : List Pod)
    → is_stopped_phase phase ≡ true
    → PodsAreSettled (pod_statuses_from component phase index pods)
unfolding pod_statuses_from
pod_statuses_from-settled component phase index [] h = tt
pod_statuses_from-settled component phase index (pod ∷ pods) h = (
  pod_status_of_pod-settled component phase index pod h,
  pod_statuses_from-settled component phase (index + 1) pods h,
)

update_job_and_pod_statuses-StoppedIsSettled :
    (component : String) (pods : List Pod) (s : RadixBatchJobStatus)
    → StoppedIsSettled (update_job_and_pod_statuses component pods s)
unfolding update_job_and_pod_statuses
update_job_and_pod_statuses-StoppedIsSettled component pods s h =
    pod_statuses_from-settled component s.phase 0 pods h

open-StoppedIsSettled :
    (s : RadixBatchJobStatus) → is_done_phase s.phase ≡ false → StoppedIsSettled s
open-StoppedIsSettled s open_phase h = absurd (ground arith)

observe_kube_job-StoppedIsSettled :
    (o : Observed) (job : RadixBatchJob) (kube_job : Option Job) (s : RadixBatchJobStatus)
    → is_done_phase s.phase ≡ false
    → StoppedIsSettled (observe_kube_job o job kube_job s)
unfolding observe_kube_job
observe_kube_job-StoppedIsSettled o job none s h = open-StoppedIsSettled s h
observe_kube_job-StoppedIsSettled o job (some k) s h =
    update_job_and_pod_statuses-StoppedIsSettled o.job_component_name (o.job_pods job.name)
      (kube_job_status k s)

observed_status-StoppedIsSettled :
    (o : Observed) (job : RadixBatchJob) (current : Option RadixBatchJobStatus)
    (s : RadixBatchJobStatus)
    → is_done_phase s.phase ≡ false
    → s.end_time ≡ none
    → StoppedIsSettled (observed_status o job current s)
unfolding observed_status
observed_status-StoppedIsSettled o job current s open_phase no_end =
    elim (Bool-cases (is_batch_job_stop_requested job)) [
      | inl stop ↦ rw stop (
          update_job_and_pod_statuses-StoppedIsSettled o.job_component_name (o.job_pods job.name)
            (stopped_status o.now current s))
      | inr go_on ↦ rw go_on (
          observe_kube_job-StoppedIsSettled o job
            (find_first (is_kube_job_for_batch_job job) o.kube_jobs) s open_phase)
    ]

-- If every status that the batch has keeps this rule, so does every status that a sync computes:
-- a job whose phase is Stopped has no pod status with the phase Pending or Running.
pub build_job_statuses-StoppedIsSettled :
    (o : Observed) (statuses : List RadixBatchJobStatus) (jobs : List RadixBatchJob)
    → All StoppedIsSettled statuses
    → All StoppedIsSettled (build_job_statuses o statuses jobs)
build_job_statuses-StoppedIsSettled o statuses jobs h =
    build_job_statuses-keeps StoppedIsSettled o (observed_status-StoppedIsSettled o) statuses jobs h
