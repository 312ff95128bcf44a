-- ===== src/Examples/History.antt =====
-- Three completed builds of a branch from which two environments are built.
use radix_operator.Prelude.{
  ℕ, String, true, false, ◌≡◌, refl, ◌<◌, length, none, some, List, [], ◌∷◌, Memᴰ, ◌==◌, any, map,
  All, ◌⊎◌,
}
use radix_operator.PipelineJob.Types.{
  failed, build_deploy, RadixJob, RadixJobReconcileStatus, Environment, RadixApplication,
}
use radix_operator.PipelineJob.History.{
  job_is_completed, get_radix_job_envs, Bucket, get_radix_job_candidates_for_deletion,
  get_radix_jobs_to_garbage_collect,
}
use radix_operator.PipelineJob.History.Deleted.{deleted_jobs_exceed_limit}
use radix_operator.PipelineJob.History.Deployments.{listed, lists_no_deployment_of}
use radix_operator.PipelineJob.History.ConfigMaps.Jobs.{deleted_jobs_are_completed}
use radix_operator.PipelineJob.History.ConfigMaps.{
  Namespace, Answers, found, job_not_found, garbage_collect_radix_jobs, cleanup,
}
use radix_operator.PipelineJob.History.ConfigMaps.Orphans.{cleanup-NoOrphan}

abbrev environment : String → String → Environment
environment name from = record {
  name = name;
  from = from;
  webhook_enabled = none;
  from_type = "branch";
}

abbrev app : RadixApplication
app = record {
  environments =
      environment "dev" "main" ∷ environment "qa" "main" ∷ environment "test" "feature/*" ∷ [];
}

abbrev job : String → String → ℕ → RadixJob
job name branch created = record {
  name = name;
  creation_timestamp = created;
  generation = 1;
  spec = record {
    app_name = "app";
    pipeline_type = build_deploy;
    build_spec = record {
      branch = branch;
      to_environment = "";
      git_ref = "";
      git_ref_type = "branch";
    };
    promote_to = "";
    deploy_to = "";
    stop = false;
    triggered_from_webhook = true;
  };
  status = record {
    condition = failed;
    created = some created;
    started = none;
    ended = none;
    target_envs = [];
    steps = [];
    reconciled = 0;
    observed_generation = 0;
    reconcile_status = RadixJobReconcileStatus.unset;
    message = "";
    pipeline_run_status = none;
  };
}

abbrev newest_first : List RadixJob → List RadixJob
newest_first rjs = rjs

abbrev jobs : List RadixJob
jobs = job "new" "main" 30 ∷ job "old" "main" 20 ∷ []

-- A job whose branch is built in two environments is collected for each of them.
collected_twice :
    get_radix_jobs_to_garbage_collect newest_first 1 [] app 40 40 jobs
    ≡ job "old" "main" 20 ∷ job "old" "main" 20 ∷ []
unfolding get_radix_jobs_to_garbage_collect
collected_twice = refl

-- A branch that matches the pattern of an environment, but is not written as the pattern, is in no
-- bucket: no limit holds for its jobs.
pattern_branch_not_collected :
    get_radix_jobs_to_garbage_collect newest_first 1 [] app 40 40
      (job "new" "feature/a" 30 ∷ job "old" "feature/a" 20 ∷ [])
    ≡ []
unfolding get_radix_jobs_to_garbage_collect
pattern_branch_not_collected = refl

deleted_jobs_exceed_limit_example :
    (b : Bucket) × Memᴰ b (get_radix_job_candidates_for_deletion [] app 40 40 jobs).buckets
    × Memᴰ (job "old" "main" 20) b.jobs
    × (b.condition ≡ failed)
    × Memᴰ b.env (get_radix_job_envs app (job "old" "main" 20))
    × (1 < length b.jobs)
unfolding get_radix_jobs_to_garbage_collect
deleted_jobs_exceed_limit_example =
    deleted_jobs_exceed_limit newest_first 1 [] app 40 40 jobs (job "old" "main" 20) (λ xs x m. m)
      (λ xs. refl) (Memᴰ.head refl) refl

abbrev namespace : Namespace
namespace = record {
  radix_jobs = job "new" "main" 30 ∷ [];
  config_maps =
      (record { name = "map-new"; job_name = "new" })
      ∷ (record { name = "map-gone"; job_name = "gone" })
      ∷ [];
}

abbrev answers : Answers
answers = record {
  list_jobs = none;
  application = found app;
  list_deployments = λ env. listed [];
  delete_job = λ name. none;
  list_config_maps = none;
  list_jobs_again = none;
  delete_config_map = λ name. none;
}

cleanup-NoOrphan_example :
    let ns = (cleanup newest_first 1 40 40 answers false namespace).namespace in
    any (λ name. name == "new") (map (λ j. j.name) ns.radix_jobs) ≡ true
unfolding cleanup
cleanup-NoOrphan_example =
    cleanup-NoOrphan newest_first 1 40 40 answers namespace
      (record { name = "map-new"; job_name = "new" }) refl (Memᴰ.head refl)

abbrev two_jobs : Namespace
two_jobs = record { radix_jobs = jobs; config_maps = [] }

deleted_jobs_are_completed_example :
    Memᴰ
      (job "old" "main" 20)
      (garbage_collect_radix_jobs newest_first 1 40 40 answers two_jobs).namespace.radix_jobs
    ⊎ ((ra : RadixApplication) × (answers.application ≡ found ra)
        × (job_is_completed (job "old" "main" 20).status.condition ≡ true)
        × All
            (λ env. lists_no_deployment_of "old" (answers.list_deployments env.name) ≡ true)
            ra.environments)
deleted_jobs_are_completed_example =
    deleted_jobs_are_completed newest_first 1 40 40 answers two_jobs (job "old" "main" 20)
      (refl, (refl, tt)) (λ xs x m. m) (Memᴰ.tail (Memᴰ.head refl))

-- The job that is collected twice is deleted, and the second deletion is an error.
second_deletion_fails : garbage_collect_radix_jobs newest_first 1 40 40 answers two_jobs ≡ (record {
  namespace = record { radix_jobs = job "new" "main" 30 ∷ []; config_maps = [] };
  errors = job_not_found ∷ [];
})
unfolding garbage_collect_radix_jobs
second_deletion_fails = refl
