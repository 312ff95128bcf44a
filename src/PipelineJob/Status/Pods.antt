-- ===== src/PipelineJob/Status/Pods.antt =====
-- The steps of a pipeline job from its Kubernetes jobs and their pods: `getJobSteps` and what it
-- calls, of pkg/apis/job/job.go. A label that is missing reads as the empty text. `random_string`
-- is the random text of radix-common that a pod's name seeds.
pub mod StepTimes
use radix_operator.Prelude.{
  ℕ, String, Bool, true, false, not, ◌&&◌, ◌||◌, Option, none, some, List, [], ◌∷◌, ◌++◌, map, ◌==◌,
  ◌+++◌, is_empty, find_first, find_all, starts_with, if◌then◌else◌,
}
use radix_operator.Kube.Job.{JobStatus}
use radix_operator.Kube.Pod.{ContainerStatus}
use radix_operator.PipelineJob.Types.{
  RadixJobStepType, clone_config, pipeline_runner, clone, build_step, RadixJobStep,
}
use radix_operator.PipelineJob.Status.{get_job_step}

-- A Kubernetes job of the pipeline, with the labels radix-job-type, radix-env and
-- radix-component.
pub record StepJob : Type 0 where
  pub name : String
  pub job_type : String
  pub env : String
  pub component : String
  pub status : JobStatus

-- A pod of one, with the label job-name and the names of its containers.
pub record StepPod : Type 0 where
  pub name : String
  pub job_name : String
  pub containers : List String
  pub init_containers : List String
  pub container_statuses : List ContainerStatus
  pub init_container_statuses : List ContainerStatus

unfoldable pub get_container_status_by_name : String → List ContainerStatus → Option ContainerStatus
get_container_status_by_name name = find_first (λ c. c.name == name)

-- The lookup in the map that `slice.Reduce` makes, where a later status replaces an earlier one.
unfoldable pub last_container_status : String → List ContainerStatus → Option ContainerStatus
last_container_status name [] = none
last_container_status name (c ∷ cs) = or_this (last_container_status name cs)
  where
    or_this : Option ContainerStatus → Option ContainerStatus
    or_this (some later) = some later
    or_this none = if c.name == name then some c else none

unfoldable pub get_orchestrator_step : StepPod → RadixJobStep
unfolding get_job_step get_container_status_by_name
get_orchestrator_step pod =
    get_job_step pod.name "radix-pipeline" "radix-pipeline" pipeline_runner [] []
      (get_container_status_by_name "radix-pipeline" pod.container_statuses)

unfoldable pub get_prepare_pipeline_steps : StepPod → RadixJobStep
unfolding get_job_step get_container_status_by_name
get_prepare_pipeline_steps pod =
    get_job_step pod.name "clone-config" "clone-config" clone_config [] []
      (get_container_status_by_name "clone-config" pod.init_container_statuses)

abbrev pub is_nil : List String → Bool
is_nil [] = true
is_nil (_ ∷ _) = false

module _ (random_string : String → String) where
  -- `fmt.Sprintf("%s-%s-%s-%s", ...)`
  unfoldable pub step_name : String → String → String → String → String
  step_name container component env pod_name =
      container +++ "-" +++ component +++ "-" +++ env +++ "-" +++ random_string pod_name

  -- A container name that is longer than the prefix is the name of its step.
  unfoldable pub build_step_name : String → String → String → String → String
  unfolding step_name
  build_step_name container component env pod_name =
      if container == "build" then step_name container component env pod_name else container

  unfoldable pub get_job_steps_from_containers :
      StepPod → String → String → List String → List RadixJobStep
  unfolding get_job_step build_step_name last_container_status
  get_job_steps_from_containers pod env component [] = []
  get_job_steps_from_containers pod env component (c ∷ cs) =
      let rest = get_job_steps_from_containers pod env component cs in
      if starts_with c "build"
      then get_job_step pod.name c (build_step_name c component env pod.name) build_step
          (component ∷ []) (env ∷ []) (last_container_status c pod.container_statuses)
        ∷ rest
      else rest

  unfoldable pub get_job_steps_from_init_containers :
      StepPod → String → String → List String → List RadixJobStep
  unfolding get_job_step step_name last_container_status
  get_job_steps_from_init_containers pod env component [] = []
  get_job_steps_from_init_containers pod env component (c ∷ cs) =
      let rest = get_job_steps_from_init_containers pod env component cs in
      if starts_with c "clone"
      then get_job_step pod.name c (step_name c component env pod.name) clone (component ∷ [])
          (env ∷ []) (last_container_status c pod.init_container_statuses)
        ∷ rest
      else rest

  -- One round of the loop over the jobs that are not the pipeline itself.
  steps_of_pod : StepJob → Option StepPod → List RadixJobStep
  unfolding get_job_steps_from_containers get_job_steps_from_init_containers
  steps_of_pod job none = []
  steps_of_pod job (some pod) =
      if is_empty job.env || is_empty job.component
      then []
      else get_job_steps_from_init_containers pod job.env job.component pod.init_containers
        ++ get_job_steps_from_containers pod job.env job.component pod.containers

  unfoldable pub steps_of_jobs : List StepPod → List StepJob → List RadixJobStep
  unfolding steps_of_pod
  steps_of_jobs pods [] = []
  steps_of_jobs pods (job ∷ jobs) =
      steps_of_pod job (find_first (λ pod. pod.job_name == job.name) pods)
      ++ steps_of_jobs pods jobs

  unfoldable pub get_pipeline_steps : List StepJob → List StepPod → List RadixJobStep
  unfolding steps_of_jobs
  get_pipeline_steps jobs pods =
      steps_of_jobs pods (find_all (λ job. not (job.job_type == "job")) jobs)

  steps_of_orchestrator : Option StepPod → List StepJob → List StepPod → List RadixJobStep
  unfolding get_orchestrator_step get_prepare_pipeline_steps get_pipeline_steps
  steps_of_orchestrator none jobs pods = []
  steps_of_orchestrator (some pod) jobs pods =
      if is_nil pod.containers
      then []
      else get_orchestrator_step pod ∷ get_prepare_pipeline_steps pod ∷ get_pipeline_steps jobs pods

  -- The steps of the job of a name. The pods are listed.
  unfoldable pub get_job_steps : String → List StepJob → List StepPod → List RadixJobStep
  unfolding steps_of_orchestrator
  get_job_steps name jobs pods =
      steps_of_orchestrator (find_first (λ pod. pod.job_name == name) pods) jobs pods
