-- ===== src/PipelineJob/Deletion.antt =====
-- The deletion of the Kubernetes jobs and pods of a pipeline job: `deletePipelineJobs`,
-- `deleteStepJobs` and `deleteJobPodIfExistsAndNotCompleted` of pkg/apis/job/job.go. The functions
-- give their error; the answers of the API server are by the name of the object.
use radix_operator.Prelude.{
  String, Bool, true, false, Option, none, some, List, [], ◌∷◌, if◌then◌else◌,
}
use radix_operator.Kube.Pod.{PodPhase}
use radix_operator.PipelineJob.Status.Sync.{Listed, listed, list_failed}

-- The answer to a deletion; a missing object is no error.
pub data DeletionAnswer : Type 0 where
  deleted missing : DeletionAnswer
  failed : String → DeletionAnswer

-- A pod of a Kubernetes job.
pub record JobPod : Type 0 where
  pub name : String
  pub phase : PodPhase

-- A Kubernetes job of a step; `is_completed` if its completion time is set.
pub record ListedStepJob : Type 0 where
  pub name : String
  pub is_completed : Bool

pub record DeletionAnswers : Type 0 where
  pub delete_job : String → DeletionAnswer
  pub delete_pod : String → DeletionAnswer
  pub list_pods : String → Listed JobPod
  pub list_step_jobs : Listed ListedStepJob

-- `if err != nil && !errors.IsNotFound(err) { return err }`, then the rest.
unfoldable pub unless_deletion_failed : DeletionAnswer → Option String → Option String
unless_deletion_failed deleted rest = rest
unless_deletion_failed missing rest = rest
unless_deletion_failed (failed e) rest = some e

-- `if err != nil { return err }`, then the rest.
unfoldable pub or_then : Option String → Option String → Option String
or_then (some e) rest = some e
or_then none rest = rest

abbrev is_finished : PodPhase → Bool
is_finished PodPhase.succeeded = true
is_finished PodPhase.failed = true
is_finished _ = false

module _ (answers : DeletionAnswers) where
  -- Only the first pod of the list is looked at.
  delete_pod_of : Listed JobPod → Option String
  unfolding unless_deletion_failed
  delete_pod_of (list_failed e) = some e
  delete_pod_of (listed []) = none
  delete_pod_of (listed (pod ∷ pods)) =
      if is_finished pod.phase
      then none
      else unless_deletion_failed (answers.delete_pod pod.name) none

  unfoldable pub delete_job_pod_if_exists_and_not_completed : String → Option String
  unfolding delete_pod_of
  delete_job_pod_if_exists_and_not_completed name = delete_pod_of (answers.list_pods name)

  -- The loop of `deleteStepJobs`.
  delete_each : List ListedStepJob → Option String
  unfolding unless_deletion_failed or_then delete_job_pod_if_exists_and_not_completed
  delete_each [] = none
  delete_each (job ∷ jobs) =
      let rest = delete_each jobs in
      if job.is_completed
      then rest
      else unless_deletion_failed (answers.delete_job job.name)
          (or_then (delete_job_pod_if_exists_and_not_completed job.name) rest)

  delete_listed : Listed ListedStepJob → Option String
  unfolding delete_each
  delete_listed (list_failed e) = some e
  delete_listed (listed jobs) = delete_each jobs

  unfoldable pub delete_step_jobs : Option String
  unfolding delete_listed
  delete_step_jobs = delete_listed answers.list_step_jobs

  unfoldable pub delete_pipeline_jobs : String → Option String
  unfolding unless_deletion_failed or_then delete_job_pod_if_exists_and_not_completed
      delete_step_jobs
  delete_pipeline_jobs name =
      unless_deletion_failed (answers.delete_job name)
        (or_then (delete_job_pod_if_exists_and_not_completed name) delete_step_jobs)
