-- ===== src/PipelineJob/History/ConfigMaps.antt =====
-- `Cleanup`, `garbageCollectRadixJobs`, `deleteRadixJobs`, `garbageCollectConfigMaps` and
-- `getRadixJobNameSet` of pkg/apis/job/job_history.go, over the pipeline jobs and the ConfigMaps
-- that the API server stores in the namespace of the application. The other answers of the API
-- server are arguments. `errors.Join` is the list of the errors; it is nil if the list is empty. A
-- context that is cancelled is left out.
pub mod Orphans
pub mod Jobs
use radix_operator.Prelude.{
  ℕ, String, Bool, true, false, not, Option, none, some, List, [], ◌∷◌, ◌++◌, map, ◌==◌, any,
  find_all, is_empty, if◌then◌else◌,
}
use radix_operator.PipelineJob.Types.{RadixJob, RadixApplication}
use radix_operator.PipelineJob.History.{get_radix_jobs_to_garbage_collect}
use radix_operator.PipelineJob.History.Deployments.{
  ListAnswer, RadixJobsWithRadixDeployments, job_names, get_radix_jobs_map_to_radix_deployments,
}

-- A ConfigMap that has the label radix-job-name, whose value is `job_name`.
pub record ConfigMap : Type 0 where
  pub name : String
  pub job_name : String

pub record Namespace : Type 0 where
  pub radix_jobs : List RadixJob
  pub config_maps : List ConfigMap

-- The namespace after the calls, and their errors.
pub record Outcome : Type 0 where
  pub namespace : Namespace
  pub errors : List String

-- The answer to the request for the RadixApplication.
pub data ApplicationAnswer : Type 0 where
  found : RadixApplication → ApplicationAnswer
  not_found : ApplicationAnswer
  failed : String → ApplicationAnswer

-- The errors, if any, of the calls. `list_deployments` has the answer for each environment.
pub record Answers : Type 0 where
  pub list_jobs : Option String
  pub application : ApplicationAnswer
  pub list_deployments : String → ListAnswer
  pub delete_job : String → Option String
  pub list_config_maps : Option String
  pub list_jobs_again : Option String
  pub delete_config_map : String → Option String

abbrev pub job_not_found : String
job_not_found = "not found"

-- The API server answers NotFound if the job is not stored, or is not stored any more.
job_deleted : Option String → String → Namespace → Outcome
job_deleted (some e) name ns = record { namespace = ns; errors = e ∷ [] }
job_deleted none name ns =
    if any (λ j. j.name == name) ns.radix_jobs
    then record {
      namespace = record ns { radix_jobs = find_all (λ j. not (j.name == name)) ns.radix_jobs };
      errors = [];
    }
    else record { namespace = ns; errors = job_not_found ∷ [] }

config_map_deleted : Option String → String → Namespace → Outcome
config_map_deleted (some e) name ns = record { namespace = ns; errors = e ∷ [] }
config_map_deleted none name ns = record {
  namespace = record ns { config_maps = find_all (λ m. not (m.name == name)) ns.config_maps };
  errors = [];
}

module _ (answers : Answers) where
  unfoldable pub delete_radix_jobs : List RadixJob → Namespace → Outcome
  unfolding job_deleted
  delete_radix_jobs [] ns = record { namespace = ns; errors = [] }
  delete_radix_jobs (rj ∷ rjs) ns =
      let one = job_deleted (answers.delete_job rj.name) rj.name ns in
      let rest = delete_radix_jobs rjs one.namespace in
      record { namespace = rest.namespace; errors = one.errors ++ rest.errors }

  -- One round of the loop over the ConfigMaps.
  unfoldable pub delete_config_map_without_job : List String → ConfigMap → Namespace → Outcome
  unfolding config_map_deleted
  delete_config_map_without_job radix_job_names m ns =
      if any (λ name. name == m.job_name) radix_job_names
      then record { namespace = ns; errors = [] }
      else config_map_deleted (answers.delete_config_map m.name) m.name ns

  unfoldable pub delete_config_maps : List String → List ConfigMap → Namespace → Outcome
  unfolding delete_config_map_without_job
  delete_config_maps radix_job_names [] ns = record { namespace = ns; errors = [] }
  delete_config_maps radix_job_names (m ∷ ms) ns =
      let one = delete_config_map_without_job radix_job_names m ns in
      let rest = delete_config_maps radix_job_names ms one.namespace in
      record { namespace = rest.namespace; errors = one.errors ++ rest.errors }

  config_maps_listed : Option String → Option String → Namespace → Outcome
  unfolding delete_config_maps
  config_maps_listed (some e) jobs ns = record { namespace = ns; errors = e ∷ [] }
  config_maps_listed none (some e) ns = record { namespace = ns; errors = e ∷ [] }
  config_maps_listed none none ns =
      delete_config_maps (map (λ j. j.name) ns.radix_jobs) ns.config_maps ns

  unfoldable pub garbage_collect_config_maps : Namespace → Outcome
  unfolding config_maps_listed
  garbage_collect_config_maps = config_maps_listed answers.list_config_maps answers.list_jobs_again

abbrev pub no_jobs : List RadixJob → Bool
no_jobs [] = true
no_jobs (_ ∷ _) = false

module _ (sort : List RadixJob → List RadixJob) (history_limit now history_period_limit : ℕ)
    (answers : Answers) where
  with_deployments : RadixApplication → RadixJobsWithRadixDeployments → Namespace → Outcome
  unfolding delete_radix_jobs get_radix_jobs_to_garbage_collect
  with_deployments ra (RadixJobsWithRadixDeployments.failed e) ns = record {
    namespace = ns;
    errors = e ∷ [];
  }
  with_deployments ra (job_names names) ns =
      delete_radix_jobs answers
        (get_radix_jobs_to_garbage_collect sort history_limit names ra now history_period_limit
          ns.radix_jobs)
        ns

  with_application : ApplicationAnswer → Namespace → Outcome
  unfolding with_deployments get_radix_jobs_map_to_radix_deployments
  with_application not_found ns = record { namespace = ns; errors = [] }
  with_application (ApplicationAnswer.failed e) ns = record { namespace = ns; errors = e ∷ [] }
  with_application (found ra) ns =
      with_deployments ra (get_radix_jobs_map_to_radix_deployments answers.list_deployments ra) ns

  jobs_listed : Option String → Namespace → Outcome
  unfolding with_application
  jobs_listed (some e) ns = record { namespace = ns; errors = e ∷ [] }
  jobs_listed none ns =
      if no_jobs ns.radix_jobs
      then record { namespace = ns; errors = [] }
      else with_application answers.application ns

  unfoldable pub garbage_collect_radix_jobs : Namespace → Outcome
  unfolding jobs_listed
  garbage_collect_radix_jobs = jobs_listed answers.list_jobs

  -- `if err != nil { return err }`, then the ConfigMaps.
  then_config_maps : Outcome → List String → Outcome
  unfolding garbage_collect_config_maps
  then_config_maps jobs (e ∷ es) = record { namespace = jobs.namespace; errors = e ∷ es }
  then_config_maps jobs [] = garbage_collect_config_maps answers jobs.namespace

  -- `is_running` says that a cleanup of the namespace is under way.
  unfoldable pub cleanup : Bool → Namespace → Outcome
  unfolding garbage_collect_radix_jobs then_config_maps
  cleanup is_running ns =
      if is_running
      then record { namespace = ns; errors = [] }
      else let jobs = garbage_collect_radix_jobs ns in then_config_maps jobs jobs.errors
