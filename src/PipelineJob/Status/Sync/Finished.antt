-- ===== src/PipelineJob/Status/Sync/Finished.antt =====
-- When a sync of the status ends a pipeline job.
use radix_operator.Prelude.{
  ℕ, String, true, ◌||◌, ◌≡◌, refl, ap, ◌∙◌, Option, none, some, List, [], ◌∷◌, ◌==◌, find_first,
  arith,
}
use radix_operator.Kube.Job.{JobStatus, is_job_failed, is_job_succeeded}
use radix_operator.PipelineJob.Types.{is_done, RadixJobStep, RadixJobStatus, RadixJob}
use radix_operator.PipelineJob.Status.{updated, or_succeeded, find_job_condition}
use radix_operator.PipelineJob.Status.Pods.{StepJob, StepPod, get_job_steps}
use radix_operator.PipelineJob.Status.Sync.{
  Listed, listed, list_failed, JobDeployment, Answers, from_pipeline_job, with_environments,
  reconciled_as, change_status, after_update, environments_listed, get_job_environments,
  pods_listed, steps_if_exists, jobs_listed, sync_status,
}

find_job_condition-is_done :
    (rj : RadixJob) (s : JobStatus)
    → is_done (or_succeeded rj.status.pipeline_run_status) ≡ true
    → is_done (find_job_condition rj s) ≡ (is_job_failed s || is_job_succeeded s)
unfolding find_job_condition
find_job_condition-is_done rj s reported = ground arith

with_environments-condition :
    (environments : List String) (s : RadixJobStatus)
    → (with_environments environments s).condition ≡ s.condition
unfolding with_environments
with_environments-condition [] s = refl
with_environments-condition (e ∷ es) s = refl

reconciled_as-condition :
    (e : Option String) (s : RadixJobStatus) → (reconciled_as e s).condition ≡ s.condition
unfolding reconciled_as
reconciled_as-condition none s = refl
reconciled_as-condition (some e) s = refl

module _ (now : ℕ) (reconcile_error : Option String) (answers : Answers) (rj : RadixJob)
    (job : StepJob) where
  change_status-condition :
      (steps : List RadixJobStep) (environments : List String) (s : RadixJobStatus)
      → (change_status now reconcile_error answers rj (some job) steps environments s).condition
        ≡ find_job_condition rj job.status
  unfolding change_status from_pipeline_job
  change_status-condition steps environments s =
      reconciled_as-condition reconcile_error _ ∙ with_environments-condition environments _

  after_update-status :
      (answer : Option String) (change : RadixJobStatus → RadixJobStatus)
      → (after_update now reconcile_error answers (updated answer change rj)).error ≡ none
      → (after_update now reconcile_error answers (updated answer change rj)).radix_job.status
        ≡ change rj.status
  unfolding after_update updated
  after_update-status none change fine = refl
  after_update-status (some e) change fine = cc

  environments_listed-condition :
      (rds : Listed JobDeployment) (steps : List RadixJobStep)
      → (environments_listed now reconcile_error answers rds rj (some job) steps).error ≡ none
      → (environments_listed now reconcile_error answers rds rj
          (some job)
          steps).radix_job.status.condition
        ≡ find_job_condition rj job.status
  unfolding environments_listed
  environments_listed-condition (list_failed e) steps fine = cc
  environments_listed-condition (listed rds) steps fine =
      let environments = get_job_environments rj.name rds in
      ap (λ s. s.condition)
        (after_update-status answers.update
          (change_status now reconcile_error answers rj (some job) steps environments) fine)
      ∙ change_status-condition steps environments rj.status

  pods_listed-condition :
      (pods : Listed StepPod) (random_string : String → String) (jobs : List StepJob)
      → (pods_listed now reconcile_error answers pods random_string rj job jobs).error ≡ none
      → (pods_listed now reconcile_error answers pods random_string rj job
          jobs).radix_job.status.condition
        ≡ find_job_condition rj job.status
  unfolding pods_listed
  pods_listed-condition (list_failed e) random_string jobs fine = cc
  pods_listed-condition (listed pods) random_string jobs fine =
      environments_listed-condition answers.deployments
        (get_job_steps random_string rj.name jobs pods) fine

  jobs_listed-condition :
      (random_string : String → String) (jobs : List StepJob)
      → find_first (λ j. j.name == rj.name) jobs ≡ some job
      → (jobs_listed now reconcile_error answers (listed jobs) random_string rj).error ≡ none
      → (jobs_listed now reconcile_error answers
          (listed jobs)
          random_string
          rj).radix_job.status.condition
        ≡ find_job_condition rj job.status
  unfolding jobs_listed steps_if_exists
  jobs_listed-condition random_string jobs found fine =
      rw found (pods_listed-condition answers.pods random_string jobs (rw found at fine))

-- After a sync of the status without an error, in which the Kubernetes job of the pipeline is
-- found, the pipeline job is done exactly if that Kubernetes job failed or succeeded, provided
-- that the condition which the pipeline itself reported, if any, is a final one.
pub sync_status-is_done :
    (now : ℕ) (reconcile_error : Option String) (answers : Answers)
    (random_string : String → String) (rj : RadixJob) (jobs : List StepJob) (job : StepJob)
    → answers.jobs ≡ listed jobs
    → find_first (λ j. j.name == rj.name) jobs ≡ some job
    → is_done (or_succeeded rj.status.pipeline_run_status) ≡ true
    → (sync_status now reconcile_error answers random_string rj).error ≡ none
    → is_done (sync_status now reconcile_error answers random_string rj).radix_job.status.condition
      ≡ (is_job_failed job.status || is_job_succeeded job.status)
unfolding sync_status
sync_status-is_done now reconcile_error answers random_string rj jobs job all_jobs found reported
      fine =
    rw all_jobs (
      ap is_done (
        jobs_listed-condition now reconcile_error answers rj job random_string jobs found
          (rw all_jobs at fine))
      ∙ find_job_condition-is_done rj job.status reported)
