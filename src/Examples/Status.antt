-- ===== src/Examples/Status.antt =====
-- A running pipeline job with its pods.
use radix_operator.Prelude.{
  ℕ, String, true, ◌||◌, ◌≡◌, refl, Option, none, some, List, [], ◌∷◌, All,
}
use radix_operator.Kube.Job.{JobConditionType, JobStatus, is_job_failed, is_job_succeeded}
use radix_operator.Kube.Pod.{ContainerStatus}
use radix_operator.PipelineJob.Types.{
  running, stopped_no_changes, is_done, build_deploy, RadixJobStepType, RadixJobStep, RadixJob,
  RadixJobReconcileStatus,
}
use radix_operator.PipelineJob.Status.Pods.{StepJob, StepPod, get_job_steps}
use radix_operator.PipelineJob.Status.Pods.StepTimes.{TimesFit, get_job_steps-TimesFit}
use radix_operator.PipelineJob.Status.Sync.{listed, Answers, sync_status}
use radix_operator.PipelineJob.Status.Sync.Finished.{sync_status-is_done}

abbrev step : RadixJobStep
step = record {
  name = "build-web";
  step_type = RadixJobStepType.build_step;
  condition = running;
  started = some 3;
  ended = none;
  pod_name = "pod";
  container_name = "build-web";
  components = [];
  environments = [];
}

abbrev job : RadixJob
job = record {
  name = "job";
  creation_timestamp = 1;
  generation = 2;
  spec = record {
    app_name = "app";
    pipeline_type = build_deploy;
    build_spec = record {
      branch = "main";
      to_environment = "";
      git_ref = "";
      git_ref_type = "branch";
    };
    promote_to = "";
    deploy_to = "";
    stop = true;
    triggered_from_webhook = true;
  };
  status = record {
    condition = running;
    created = none;
    started = none;
    ended = none;
    target_envs = [];
    steps = step ∷ [];
    reconciled = 0;
    observed_generation = 0;
    reconcile_status = RadixJobReconcileStatus.unset;
    message = "";
    pipeline_run_status = some stopped_no_changes;
  };
}

abbrev job_status : JobStatus
job_status = record {
  conditions =
      record {
        condition_type = JobConditionType.complete;
        is_true = true;
        last_transition_time = 8;
        reason = "";
        message = "";
      }
      ∷ [];
  start_time = some 2;
  completion_time = some 8;
  active = 0;
  failed_pods = 0;
  ready = none;
}

abbrev pipeline : StepJob
pipeline = record { name = "job"; job_type = "job"; env = ""; component = ""; status = job_status }

abbrev build : StepJob
build = record {
  name = "build";
  job_type = "build";
  env = "dev";
  component = "web";
  status = job_status;
}

abbrev container : String → Option ℕ → ContainerStatus
container name started = record {
  name = name;
  restart_count = 0;
  image_id = "";
  state = record { running = started; waiting = none; terminated = none };
}

abbrev pods : List StepPod
pods =
    (record {
      name = "pod";
      job_name = "job";
      containers = "radix-pipeline" ∷ [];
      init_containers = "clone-config" ∷ [];
      container_statuses = container "radix-pipeline" (some 3) ∷ [];
      init_container_statuses = [];
    })
    ∷ (record {
      name = "build-pod";
      job_name = "build";
      containers = "build-web" ∷ [];
      init_containers = [];
      container_statuses = [];
      init_container_statuses = [];
    })
    ∷ []

abbrev random_string : String → String
random_string seed = seed

get_job_steps-TimesFit_example :
    All TimesFit (get_job_steps random_string "job" (pipeline ∷ build ∷ []) pods)
get_job_steps-TimesFit_example =
    get_job_steps-TimesFit random_string "job" (pipeline ∷ build ∷ []) pods

abbrev answers : Answers
answers = record {
  jobs = listed (pipeline ∷ build ∷ []);
  pods = listed pods;
  deployments = listed [];
  update = none;
}

sync_status-is_done_example :
    is_done (sync_status 9 none answers random_string job).radix_job.status.condition
    ≡ (is_job_failed job_status || is_job_succeeded job_status)
unfolding sync_status
sync_status-is_done_example =
    sync_status-is_done 9 none answers random_string job (pipeline ∷ build ∷ []) pipeline refl refl
      refl refl
