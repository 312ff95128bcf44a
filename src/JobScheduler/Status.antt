-- ===== src/JobScheduler/Status.antt =====
-- job-scheduler/pkg/internal/job_status.go: the status that the API of the job scheduler shows.
-- A status is the text that the code converts phases and condition types to.
pub mod Rules
use radix_operator.Prelude.{
  ℕ, String, Bool, true, false, not, ◌&&◌, ◌||◌, Option, none, some, List, [], ◌∷◌, map, ◌==◌,
  is_empty, any, all, if◌then◌else◌,
}
use radix_operator.Batch.Types.{
  RadixBatchJobPhase, unset, waiting, active, running, succeeded, failed, stopped,
  RadixBatchJobPodPhase, RadixBatchConditionType, RadixBatchJobPodStatus, RadixBatchJobStatus,
  RadixBatch,
}

-- `string(phase)`
abbrev pub phase_text : RadixBatchJobPhase → String
phase_text unset = ""
phase_text waiting = "Waiting"
phase_text active = "Active"
phase_text running = "Running"
phase_text succeeded = "Succeeded"
phase_text failed = "Failed"
phase_text stopped = "Stopped"

-- `string(conditionType)`
abbrev pub condition_type_text : RadixBatchConditionType → String
condition_type_text RadixBatchConditionType.unset = ""
condition_type_text RadixBatchConditionType.waiting = "Waiting"
condition_type_text RadixBatchConditionType.active = "Active"
condition_type_text RadixBatchConditionType.completed = "Completed"

abbrev pub is_pod_failed : RadixBatchJobPodPhase → Bool
is_pod_failed RadixBatchJobPodPhase.failed = true
is_pod_failed RadixBatchJobPodPhase.pending = false
is_pod_failed RadixBatchJobPodPhase.running = false
is_pod_failed RadixBatchJobPodPhase.succeeded = false
is_pod_failed RadixBatchJobPodPhase.unknown = false
is_pod_failed RadixBatchJobPodPhase.stopped = false

-- `len(s) > 0 && slice.All(s, ...)` over the pod statuses
all_pods_failed : List RadixBatchJobPodStatus → Bool
all_pods_failed [] = false
all_pods_failed (p ∷ ps) = all (λ s. is_pod_failed s.phase) (p ∷ ps)

or_waiting : String → String
or_waiting status = if is_empty status then "Waiting" else status

unfoldable pub get_scheduled_job_status : RadixBatchJobStatus → Bool → String
unfolding all_pods_failed or_waiting
get_scheduled_job_status job_status stop_job =
    let status = or_waiting (phase_text job_status.phase) in
    if stop_job && (status == "Waiting" || (status == "Active" || status == "Running"))
    then "Stopping"
    else if all_pods_failed job_status.pod_statuses
    then "Failed"
    else status

-- `other` is any text but the constants.
pub data Condition : Type 0 where
  condition_all condition_any other : Condition

pub data Operator : Type 0 where
  operator_in operator_not_in other : Operator

pub record BatchStatusRule : Type 0 where
  pub condition : Condition
  pub operator : Operator
  pub job_statuses : List RadixBatchJobPhase
  pub batch_status : String

unfoldable pub evaluate_condition : RadixBatchJobPhase → Operator → List RadixBatchJobPhase → Bool
evaluate_condition phase operator_in statuses = any (λ s. phase_text s == phase_text phase) statuses
evaluate_condition phase operator_not_in statuses =
    not (any (λ s. phase_text s == phase_text phase) statuses)
evaluate_condition phase Operator.other statuses = false

-- The test of the `switch` that returns the status of the rule.
by_condition : Condition → BatchStatusRule → List RadixBatchJobPhase → Bool
unfolding evaluate_condition
by_condition condition_any rule phases =
    any (λ p. evaluate_condition p rule.operator rule.job_statuses) phases
by_condition condition_all rule phases =
    all (λ p. evaluate_condition p rule.operator rule.job_statuses) phases
by_condition Condition.other rule phases = false

unfoldable pub rule_applies : BatchStatusRule → List RadixBatchJobPhase → Bool
unfolding by_condition
rule_applies rule phases = by_condition rule.condition rule phases

-- The loop over the rules, then the default.
unfoldable pub status_from_rules : List RadixBatchJobPhase → List BatchStatusRule → String → String
unfolding rule_applies or_waiting
status_from_rules phases [] default_status = or_waiting default_status
status_from_rules phases (rule ∷ rules) default_status =
    if rule_applies rule phases
    then rule.batch_status
    else status_from_rules phases rules default_status

-- A component that is nil has no rules.
unfoldable pub get_status_from_status_rules :
    List RadixBatchJobPhase → Option (List BatchStatusRule) → String → String
unfolding status_from_rules or_waiting
get_status_from_status_rules phases none default_status = or_waiting default_status
get_status_from_status_rules phases (some rules) default_status =
    status_from_rules phases rules default_status

first_phase : List RadixBatchJobStatus → String
first_phase [] = "Waiting"
first_phase (s ∷ ss) = phase_text s.phase

unfoldable pub has_one_job : RadixBatch → Bool
has_one_job batch = one batch.jobs
  where
    one : {A : Type 0} → List A → Bool
    one [] = false
    one (_ ∷ []) = true
    one (_ ∷ _ ∷ _) = false

-- The rules are those of the job component, if there is one.
unfoldable pub get_radix_batch_status : RadixBatch → Option (List BatchStatusRule) → String
unfolding first_phase has_one_job get_status_from_status_rules
get_radix_batch_status batch rules =
    if batch.type_label == "job" && has_one_job batch
    then first_phase batch.status.job_statuses
    else get_status_from_status_rules (map (λ s. s.phase) batch.status.job_statuses) rules
        (condition_type_text batch.status.condition.condition_type)
