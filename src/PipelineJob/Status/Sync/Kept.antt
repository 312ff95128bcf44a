-- ===== src/PipelineJob/Status/Sync/Kept.antt =====
-- What `syncStatus` leaves as it is.
use radix_operator.Prelude.{ℕ, String, Option, none, some, List, ◌==◌, find_first}
use radix_operator.PipelineJob.Types.{RadixJobStep, RadixJob}
use radix_operator.PipelineJob.Status.{Outcome}
use radix_operator.PipelineJob.Status.Kept.{Kept, nothing_stored, updated-Kept}
use radix_operator.PipelineJob.Status.Pods.{StepJob, StepPod, get_job_steps}
use radix_operator.PipelineJob.Status.Sync.{
  Listed, listed, list_failed, JobDeployment, Answers, change_status, give_error, after_update,
  environments_listed, get_job_environments, pods_listed, steps_if_exists, jobs_listed, sync_status,
}

module _ (now : ℕ) (reconcile_error : Option String) (answers : Answers) (rj : RadixJob) where
  give_error-Kept :
      (e : Option String) (o : Outcome) → Kept rj o → Kept rj (give_error reconcile_error e o)
  unfolding give_error
  give_error-Kept none o kept = record { same = kept.same; unchanged = kept.unchanged }
  give_error-Kept (some e) o kept = record { same = kept.same; unchanged = kept.unchanged }

  after_update-Kept :
      (o : Outcome) → Kept rj o → Kept rj (after_update now reconcile_error answers o)
  unfolding after_update
  after_update-Kept o kept = give_error-Kept o.error o kept

  environments_listed-Kept :
      (rds : Listed JobDeployment) (job : Option StepJob) (steps : List RadixJobStep)
      → Kept rj (environments_listed now reconcile_error answers rds rj job steps)
  unfolding environments_listed
  environments_listed-Kept (list_failed e) job steps = nothing_stored rj (some e)
  environments_listed-Kept (listed rds) job steps = after_update-Kept _ (
      updated-Kept answers.update
        (change_status now reconcile_error answers rj job steps (get_job_environments rj.name rds))
        rj)

  pods_listed-Kept :
      (pods : Listed StepPod) (random_string : String → String) (job : StepJob)
      (jobs : List StepJob)
      → Kept rj (pods_listed now reconcile_error answers pods random_string rj job jobs)
  unfolding pods_listed
  pods_listed-Kept (list_failed e) random_string job jobs = nothing_stored rj (some e)
  pods_listed-Kept (listed pods) random_string job jobs =
      environments_listed-Kept answers.deployments (some job)
        (get_job_steps random_string rj.name jobs pods)

  steps_if_exists-Kept :
      (job : Option StepJob) (random_string : String → String) (jobs : List StepJob)
      → Kept rj (steps_if_exists now reconcile_error answers job random_string rj jobs)
  unfolding steps_if_exists
  steps_if_exists-Kept none random_string jobs = environments_listed-Kept answers.deployments none _
  steps_if_exists-Kept (some job) random_string jobs =
      pods_listed-Kept answers.pods random_string job jobs

  jobs_listed-Kept :
      (jobs : Listed StepJob) (random_string : String → String)
      → Kept rj (jobs_listed now reconcile_error answers jobs random_string rj)
  unfolding jobs_listed
  jobs_listed-Kept (list_failed e) random_string = nothing_stored rj (some e)
  jobs_listed-Kept (listed jobs) random_string =
      steps_if_exists-Kept (find_first (λ j. j.name == rj.name) jobs) random_string jobs

  pub sync_status-Kept :
      (random_string : String → String)
      → Kept rj (sync_status now reconcile_error answers random_string rj)
  unfolding sync_status
  sync_status-Kept random_string = jobs_listed-Kept answers.jobs random_string
