-- ===== src/PipelineJob/Status/Sync.antt =====
-- `syncStatus`, `getJobEnvironments` and `updateStatus` of pkg/apis/job/job.go.
-- The answers of the API server are in `Answers`: an error, or what is listed.
pub mod Finished
pub mod Kept
use radix_operator.Prelude.{
  ℕ, String, Bool, true, false, Option, none, some, List, [], ◌∷◌, ◌==◌, find_first, if◌then◌else◌,
}
use radix_operator.Kube.Job.{JobCondition, JobStatus}
use radix_operator.PipelineJob.Types.{
  RadixJobStep, reconcile_succeeded, reconcile_failed, RadixJobStatus, RadixJob,
}
use radix_operator.PipelineJob.Targets.{put_key}
use radix_operator.PipelineJob.Status.{Outcome, updated, find_job_condition}
use radix_operator.PipelineJob.Status.Pods.{StepJob, StepPod, get_job_steps}

pub data Listed (A : Type 0) : Type 0 where
  listed : List A → Listed A
  list_failed : String → Listed A

-- A deployment of the application, with the label radix-job-name and its environment.
pub record JobDeployment : Type 0 where
  pub job_name : String
  pub environment : String

pub record Answers : Type 0 where
  pub jobs : Listed StepJob
  pub pods : Listed StepPod
  pub deployments : Listed JobDeployment
  pub update : Option String

-- The keys of the map of the environments.
unfoldable pub get_job_environments : String → List JobDeployment → List String
get_job_environments name [] = []
get_job_environments name (rd ∷ rds) =
    let rest = get_job_environments name rds in
    if rd.job_name == name then put_key rd.environment rest else rest

-- `if len(conditions) > 0`
ended_of : List JobCondition → Option ℕ → Option ℕ
ended_of [] kept = kept
ended_of (c ∷ cs) kept = some c.last_transition_time

-- What the pipeline's Kubernetes job says, if it exists.
from_pipeline_job : RadixJob → Option StepJob → List RadixJobStep → RadixJobStatus → RadixJobStatus
unfolding find_job_condition ended_of
from_pipeline_job rj none steps s = s
from_pipeline_job rj (some job) steps s = record s {
  steps = steps;
  condition = find_job_condition rj job.status;
  started = job.status.start_time;
  ended = ended_of job.status.conditions s.ended;
}

-- `if len(environments) > 0`
with_environments : List String → RadixJobStatus → RadixJobStatus
with_environments [] s = s
with_environments (e ∷ es) s = record s { target_envs = e ∷ es }

reconciled_as : Option String → RadixJobStatus → RadixJobStatus
reconciled_as none s = record s { reconcile_status = reconcile_succeeded; message = "" }
reconciled_as (some e) s = record s { reconcile_status = reconcile_failed; message = e }

give_error : Option String → Option String → Outcome → Outcome
give_error reconcile_error none o = record o { error = reconcile_error }
give_error reconcile_error (some e) o = record o { error = some e }

module _ (now : ℕ) (reconcile_error : Option String) (answers : Answers) where
  -- The function that the update applies.
  change_status :
      RadixJob → Option StepJob → List RadixJobStep → List String → RadixJobStatus → RadixJobStatus
  unfolding reconciled_as with_environments from_pipeline_job
  change_status rj job steps environments s =
      let s1 = from_pipeline_job rj job steps (record s { created = some rj.creation_timestamp }) in
      let s2 = with_environments environments s1 in
      reconciled_as reconcile_error
        (record s2 { reconciled = now; observed_generation = rj.generation })

  -- `return reconcileErr` after an update.
  after_update : Outcome → Outcome
  unfolding give_error
  after_update o = give_error reconcile_error o.error o

  environments_listed :
      Listed JobDeployment → RadixJob → Option StepJob → List RadixJobStep → Outcome
  unfolding updated change_status after_update get_job_environments
  environments_listed (list_failed e) rj job steps = record {
    radix_job = rj;
    is_stored = false;
    error = some e;
  }
  environments_listed (listed rds) rj job steps =
      after_update
        (updated answers.update (change_status rj job steps (get_job_environments rj.name rds)) rj)

  pods_listed : Listed StepPod → (String → String) → RadixJob → StepJob → List StepJob → Outcome
  unfolding environments_listed get_job_steps
  pods_listed (list_failed e) random_string rj job jobs = record {
    radix_job = rj;
    is_stored = false;
    error = some e;
  }
  pods_listed (listed pods) random_string rj job jobs =
      environments_listed answers.deployments rj (some job)
        (get_job_steps random_string rj.name jobs pods)

  steps_if_exists : Option StepJob → (String → String) → RadixJob → List StepJob → Outcome
  unfolding environments_listed pods_listed
  steps_if_exists none random_string rj jobs = environments_listed answers.deployments rj none []
  steps_if_exists (some job) random_string rj jobs =
      pods_listed answers.pods random_string rj job jobs

  jobs_listed : Listed StepJob → (String → String) → RadixJob → Outcome
  unfolding steps_if_exists
  jobs_listed (list_failed e) random_string rj = record {
    radix_job = rj;
    is_stored = false;
    error = some e;
  }
  jobs_listed (listed jobs) random_string rj =
      steps_if_exists (find_first (λ j. j.name == rj.name) jobs) random_string rj jobs

  unfoldable pub sync_status : (String → String) → RadixJob → Outcome
  unfolding jobs_listed
  sync_status = jobs_listed answers.jobs
