-- ===== src/Examples/Queue.antt =====
-- Three jobs in the queue of an application with the environments dev, qa and prod.
use radix_operator.Prelude.{
  ℕ, String, Bool, true, false, ◌≡◌, refl, none, some, List, [], ◌∷◌, Memᴰ, ◌==◌, arith,
}
use radix_operator.PipelineJob.Types.{
  RadixJobCondition, unset, queued, running, succeeded, is_done, RadixPipelineType, build_deploy,
  deploy, RadixJobStatus, RadixJob, RadixJobReconcileStatus, Environment, RadixApplication,
}
use radix_operator.PipelineJob.Targets.{has_key, get_target_environments}
use radix_operator.PipelineJob.Queue.{
  must_queue, next_job_to_waiting, is_other_job_running_on_branch_or_environment,
}
use radix_operator.PipelineJob.Queue.Exclusion.{
  Reach, empty, next, submit, start, replace_job, running_jobs_exclusive,
}
use radix_operator.PipelineJob.Queue.Order.{start_after_older}

abbrev pub same : String → String → Bool
same pattern branch = pattern == branch

abbrev pub environment : String → String → Environment
environment name from = record {
  name = name;
  from = from;
  webhook_enabled = some false;
  from_type = "branch";
}

abbrev pub app : RadixApplication
app = record {
  environments =
      environment "dev" "main" ∷ environment "qa" "main" ∷ environment "prod" "release" ∷ [];
}

abbrev pub status : RadixJobCondition → RadixJobStatus
status c = record {
  condition = c;
  created = none;
  started = none;
  ended = none;
  target_envs = [];
  steps = [];
  reconciled = 0;
  observed_generation = 0;
  reconcile_status = RadixJobReconcileStatus.unset;
  message = "";
  pipeline_run_status = none;
}

abbrev pub job : String → ℕ → RadixPipelineType → String → String → RadixJobCondition → RadixJob
job name created type branch env c = record {
  name = name;
  creation_timestamp = created;
  generation = 1;
  spec = record {
    app_name = "app";
    pipeline_type = type;
    build_spec = record {
      branch = branch;
      to_environment = env;
      git_ref = "";
      git_ref_type = "branch";
    };
    promote_to = env;
    deploy_to = env;
    stop = false;
    triggered_from_webhook = false;
  };
  status = status c;
}

abbrev pub to_dev : RadixJobCondition → RadixJob
to_dev = job "to-dev" 1 deploy "" "dev"

abbrev pub to_qa : RadixJobCondition → RadixJob
to_qa = job "to-qa" 2 deploy "" "qa"

abbrev pub main_build : RadixJobCondition → RadixJob
main_build = job "main-build" 3 build_deploy "main" ""

abbrev pub both_run : List RadixJob
both_run = to_dev running ∷ to_qa running ∷ []

pub both_run-Reach : Reach same app both_run
unfolding replace_job must_queue get_target_environments
both_run-Reach =
    next
      (next
        (next (next empty (submit (to_dev unset) refl)) (
          start (to_dev unset) (to_dev running) (Memᴰ.head refl)
            (record { same_name = refl; same_spec = refl }) refl refl))
        (submit (to_qa unset) refl))
      (start (to_qa unset) (to_qa running) (Memᴰ.tail (Memᴰ.head refl))
        (record { same_name = refl; same_spec = refl }) refl refl)

running_jobs_exclusive_example :
    has_key (get_target_environments same (to_qa running) app) "dev" ≡ false
unfolding get_target_environments
running_jobs_exclusive_example =
    running_jobs_exclusive same app both_run-Reach (to_dev running) (to_qa running) (Memᴰ.head refl)
      (Memᴰ.tail (Memᴰ.head refl)) refl refl refl "dev" refl

start_after_older_example : is_done (to_dev succeeded).status.condition ≡ true
unfolding must_queue
start_after_older_example =
    start_after_older same app (main_build queued) (to_dev succeeded)
      (to_dev succeeded ∷ main_build queued ∷ []) refl refl (Memᴰ.head refl) refl (omega arith) refl

abbrev late_qa : RadixJob
late_qa = job "late-qa" 4 deploy "" "qa" queued

-- A younger job is promoted ahead of an older one that a job on another environment blocks, though
-- the two share an environment.
younger_overtakes :
    next_job_to_waiting same app (main_build queued ∷ late_qa ∷ to_dev running ∷ []) ≡ some late_qa
unfolding next_job_to_waiting is_other_job_running_on_branch_or_environment
younger_overtakes = refl
