-- ===== src/PipelineJob/Status/Pods/StepTimes.antt =====
-- The times and the conditions of the steps of a pipeline job, pkg/apis/job/job.go.
use radix_operator.Prelude.{
  ℕ, String, Bool, true, false, not, ◌&&◌, ◌||◌, ◌≡◌, inl, inr, Option, none, some, List, [], ◌∷◌,
  ◌++◌, ◌==◌, All, some?, is_empty, find_first, find_all, starts_with, arith, Bool-cases,
}
use radix_operator.Kube.Pod.{ContainerStatus}
use radix_operator.PipelineJob.Types.{
  RadixJobCondition, unset, queued, waiting, running, succeeded, failed, stopped,
  stopped_no_changes, RadixJobStepType, build_step, clone, clone_config, pipeline_runner,
  RadixJobStep,
}
use radix_operator.PipelineJob.Status.{get_job_step, by_state, by_container_status}
use radix_operator.PipelineJob.Status.Pods.{
  StepJob, StepPod, get_orchestrator_step, get_prepare_pipeline_steps,
  get_job_steps_from_containers, get_job_steps_from_init_containers, steps_of_pod, steps_of_jobs,
  get_pipeline_steps, steps_of_orchestrator, get_job_steps, is_nil, get_container_status_by_name,
  last_container_status, build_step_name, step_name,
}

-- A step that waits has no time, and one that runs has no end.
abbrev pub step_times_fit : RadixJobCondition → Option ℕ → Option ℕ → Bool
step_times_fit waiting started ended = not (some? started) && not (some? ended)
step_times_fit running started ended = some? started && not (some? ended)
step_times_fit failed started ended = some? started && some? ended
step_times_fit succeeded started ended =
    (some? started && some? ended) || (not (some? started) && not (some? ended))
step_times_fit unset started ended = false
step_times_fit queued started ended = false
step_times_fit stopped started ended = false
step_times_fit stopped_no_changes started ended = false

abbrev pub TimesFit : RadixJobStep → Type 0
TimesFit step = step_times_fit step.condition step.started step.ended ≡ true

get_job_step-TimesFit :
    (pod container name : String) (t : RadixJobStepType) (components environments : List String)
    (c : Option ContainerStatus)
    → TimesFit (get_job_step pod container name t components environments c)
unfolding get_job_step by_container_status by_state
get_job_step-TimesFit pod container name t components environments c = ground arith

All-append : {A : Type 0} (P : A → Type 0) (xs ys : List A) → All P xs → All P ys → All P (xs ++ ys)
All-append P [] ys p q = q
All-append P (x ∷ xs) ys p q = (p.0, All-append P xs ys p.1 q)

module _ (random_string : String → String) where
  containers-TimesFit :
      (pod : StepPod) (env component : String) (cs : List String)
      → All TimesFit (get_job_steps_from_containers random_string pod env component cs)
  unfolding get_job_steps_from_containers
  containers-TimesFit pod env component [] = tt
  containers-TimesFit pod env component (c ∷ cs) =
      let rest = containers-TimesFit pod env component cs in
      elim (Bool-cases (starts_with c "build")) [
        | inl e ↦ rw e (
          get_job_step-TimesFit pod.name c (build_step_name random_string c component env pod.name)
              build_step (component ∷ []) (env ∷ [])
              (last_container_status c pod.container_statuses),
          rest,
        )
        | inr e ↦ rw e rest
      ]

  init_containers-TimesFit :
      (pod : StepPod) (env component : String) (cs : List String)
      → All TimesFit (get_job_steps_from_init_containers random_string pod env component cs)
  unfolding get_job_steps_from_init_containers
  init_containers-TimesFit pod env component [] = tt
  init_containers-TimesFit pod env component (c ∷ cs) =
      let rest = init_containers-TimesFit pod env component cs in
      elim (Bool-cases (starts_with c "clone")) [
        | inl e ↦ rw e (
          get_job_step-TimesFit pod.name c (step_name random_string c component env pod.name) clone
              (component ∷ []) (env ∷ []) (last_container_status c pod.init_container_statuses),
          rest,
        )
        | inr e ↦ rw e rest
      ]

  steps_of_pod-TimesFit :
      (job : StepJob) (pod : Option StepPod) → All TimesFit (steps_of_pod random_string job pod)
  unfolding steps_of_pod
  steps_of_pod-TimesFit job none = tt
  steps_of_pod-TimesFit job (some pod) =
      elim (Bool-cases (is_empty job.env || is_empty job.component)) [
        | inl e ↦ rw e tt
        | inr e ↦ rw e (
            All-append TimesFit
              (get_job_steps_from_init_containers random_string pod job.env job.component
                pod.init_containers)
              (get_job_steps_from_containers random_string pod job.env job.component pod.containers)
              (init_containers-TimesFit pod job.env job.component pod.init_containers)
              (containers-TimesFit pod job.env job.component pod.containers))
      ]

  steps_of_jobs-TimesFit :
      (pods : List StepPod) (jobs : List StepJob)
      → All TimesFit (steps_of_jobs random_string pods jobs)
  unfolding steps_of_jobs
  steps_of_jobs-TimesFit pods [] = tt
  steps_of_jobs-TimesFit pods (job ∷ jobs) =
      All-append TimesFit
        (steps_of_pod random_string job (find_first (λ pod. pod.job_name == job.name) pods))
        (steps_of_jobs random_string pods jobs)
        (steps_of_pod-TimesFit job (find_first (λ pod. pod.job_name == job.name) pods))
        (steps_of_jobs-TimesFit pods jobs)

  steps_of_orchestrator-TimesFit :
      (pod : Option StepPod) (jobs : List StepJob) (pods : List StepPod)
      → All TimesFit (steps_of_orchestrator random_string pod jobs pods)
  unfolding steps_of_orchestrator get_orchestrator_step get_prepare_pipeline_steps
      get_pipeline_steps
  steps_of_orchestrator-TimesFit none jobs pods = tt
  steps_of_orchestrator-TimesFit (some pod) jobs pods = elim (Bool-cases (is_nil pod.containers)) [
    | inl empty ↦ rw empty tt
    | inr filled ↦ rw filled fits
  ]
    where
      fits : All TimesFit (
          get_orchestrator_step pod
          ∷ get_prepare_pipeline_steps pod
          ∷ get_pipeline_steps random_string jobs pods)
      fits = (
        get_job_step-TimesFit pod.name "radix-pipeline" "radix-pipeline" pipeline_runner [] []
            (get_container_status_by_name "radix-pipeline" pod.container_statuses),
        (
          get_job_step-TimesFit pod.name "clone-config" "clone-config" clone_config [] []
              (get_container_status_by_name "clone-config" pod.init_container_statuses),
          steps_of_jobs-TimesFit pods (find_all (λ job. not (job.job_type == "job")) jobs),
        ),
      )

  -- The times of every step that a sync computes fit its condition: a waiting step has neither
  -- time, a running one has a start and no end, a failed one has both, a succeeded one has both
  -- or neither, and no step has another condition.
  pub get_job_steps-TimesFit :
      (name : String) (jobs : List StepJob) (pods : List StepPod)
      → All TimesFit (get_job_steps random_string name jobs pods)
  unfolding get_job_steps
  get_job_steps-TimesFit name jobs pods =
      steps_of_orchestrator-TimesFit (find_first (λ pod. pod.job_name == name) pods) jobs pods
