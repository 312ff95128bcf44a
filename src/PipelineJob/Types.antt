-- ===== src/PipelineJob/Types.antt =====
-- The data of a pipeline job: pkg/apis/radix/v1/radixjobtypes.go, and the part of
-- pkg/apis/radix/v1/radixapptypes.go that says which branch an environment is built from.
-- A time is a number of seconds; a pointer is an `Option`. A typed string is a data type with
-- its constants as constructors, the empty string among them where the code tests for it.
use radix_operator.Prelude.{ℕ, String, Bool, true, false, Option, List, is_empty, if◌then◌else◌}

pub data RadixJobCondition : Type 0 where
  unset queued waiting running succeeded failed stopped stopped_no_changes : RadixJobCondition

-- `slices.Contains(doneConditions, c)`
abbrev pub is_done : RadixJobCondition → Bool
is_done succeeded = true
is_done failed = true
is_done stopped = true
is_done stopped_no_changes = true
is_done unset = false
is_done queued = false
is_done waiting = false
is_done running = false

abbrev pub is_waiting_or_running : RadixJobCondition → Bool
is_waiting_or_running waiting = true
is_waiting_or_running running = true
is_waiting_or_running unset = false
is_waiting_or_running queued = false
is_waiting_or_running succeeded = false
is_waiting_or_running failed = false
is_waiting_or_running stopped = false
is_waiting_or_running stopped_no_changes = false

abbrev pub is_queued_or_empty : RadixJobCondition → Bool
is_queued_or_empty queued = true
is_queued_or_empty unset = true
is_queued_or_empty waiting = false
is_queued_or_empty running = false
is_queued_or_empty succeeded = false
is_queued_or_empty failed = false
is_queued_or_empty stopped = false
is_queued_or_empty stopped_no_changes = false

-- `c == v1.JobQueued`
abbrev pub is_queued : RadixJobCondition → Bool
is_queued queued = true
is_queued unset = false
is_queued waiting = false
is_queued running = false
is_queued succeeded = false
is_queued failed = false
is_queued stopped = false
is_queued stopped_no_changes = false

-- `other` is any value outside the constants.
pub data RadixPipelineType : Type 0 where
  build build_deploy promote deploy apply_config other : RadixPipelineType

-- `t == v1.Build || t == v1.BuildDeploy`
abbrev pub is_build_job : RadixPipelineType → Bool
is_build_job build = true
is_build_job build_deploy = true
is_build_job promote = false
is_build_job deploy = false
is_build_job apply_config = false
is_build_job other = false

pub record RadixBuildSpec : Type 0 where
  pub branch : String
  pub to_environment : String
  pub git_ref : String
  pub git_ref_type : String

unfoldable pub get_git_ref_or_default : RadixBuildSpec → String
get_git_ref_or_default b = if is_empty b.git_ref then b.branch else b.git_ref

unfoldable pub get_git_ref_type_or_default : RadixBuildSpec → String
get_git_ref_type_or_default b = if is_empty b.git_ref_type then "branch" else b.git_ref_type

-- `promote_to` and `deploy_to` are `Promote.ToEnvironment` and `Deploy.ToEnvironment`.
pub record RadixJobSpec : Type 0 where
  pub app_name : String
  pub pipeline_type : RadixPipelineType
  pub build_spec : RadixBuildSpec
  pub promote_to : String
  pub deploy_to : String
  pub stop : Bool
  pub triggered_from_webhook : Bool

pub data RadixJobStepType : Type 0 where
  clone_config pipeline_runner clone build_step : RadixJobStepType

pub record RadixJobStep : Type 0 where
  pub name : String
  pub step_type : RadixJobStepType
  pub condition : RadixJobCondition
  pub started : Option ℕ
  pub ended : Option ℕ
  pub pod_name : String
  pub container_name : String
  pub components : List String
  pub environments : List String

pub data RadixJobReconcileStatus : Type 0 where
  unset reconcile_succeeded reconcile_failed : RadixJobReconcileStatus

-- `pipeline_run_status` is `PipelineRunStatus.Status`, the condition that the pipeline reports.
pub record RadixJobStatus : Type 0 where
  pub condition : RadixJobCondition
  pub created : Option ℕ
  pub started : Option ℕ
  pub ended : Option ℕ
  pub target_envs : List String
  pub steps : List RadixJobStep
  pub reconciled : ℕ
  pub observed_generation : ℕ
  pub reconcile_status : RadixJobReconcileStatus
  pub message : String
  pub pipeline_run_status : Option RadixJobCondition

pub record RadixJob : Type 0 where
  pub name : String
  pub creation_timestamp : ℕ
  pub generation : ℕ
  pub spec : RadixJobSpec
  pub status : RadixJobStatus

-- `Environment` with its `EnvBuild`.
pub record Environment : Type 0 where
  pub name : String
  pub from : String
  pub webhook_enabled : Option Bool
  pub from_type : String

-- The reads of a missing application give one with no environment.
pub record RadixApplication : Type 0 where
  pub environments : List Environment
