-- ===== src/Kube/Job.antt =====
-- The Kubernetes job of the batch API, with the fields that the operator reads, and the tests on
-- its status in pkg/apis/kube/job.go. A status of an object that is not `True` is `false` here.
use radix_operator.Prelude.{
  ℕ, String, Bool, true, false, ◌&&◌, Option, List, [], ◌∷◌, ltb, any, find_first, some?,
}

pub data JobConditionType : Type 0 where
  complete success_criteria_met failed suspended failure_target : JobConditionType

abbrev pub same_condition_type : JobConditionType → JobConditionType → Bool
same_condition_type complete complete = true
same_condition_type success_criteria_met success_criteria_met = true
same_condition_type failed failed = true
same_condition_type suspended suspended = true
same_condition_type failure_target failure_target = true
same_condition_type _ _ = false

-- `is_true` is `condition.Status == corev1.ConditionTrue`.
pub record JobCondition : Type 0 where
  pub condition_type : JobConditionType
  pub is_true : Bool
  pub last_transition_time : ℕ
  pub reason : String
  pub message : String

pub record JobStatus : Type 0 where
  pub conditions : List JobCondition
  pub start_time : Option ℕ
  pub completion_time : Option ℕ
  pub active : ℕ
  pub failed_pods : ℕ
  pub ready : Option ℕ

-- `batch_job_name` is the value of the label radix-batch-job-name.
pub record Job : Type 0 where
  pub name : String
  pub batch_job_name : Option String
  pub creation_timestamp : ℕ
  pub status : JobStatus

unfoldable pub job_has_one_of_condition_types : List JobConditionType → JobCondition → Bool
job_has_one_of_condition_types types condition =
    any (λ c. same_condition_type condition.condition_type c && condition.is_true) types

unfoldable pub find_success : JobStatus → Option JobCondition
unfolding job_has_one_of_condition_types
find_success status =
    find_first (job_has_one_of_condition_types (complete ∷ success_criteria_met ∷ []))
      status.conditions

unfoldable pub find_failure : JobStatus → Option JobCondition
unfolding job_has_one_of_condition_types
find_failure status = find_first (job_has_one_of_condition_types (failed ∷ [])) status.conditions

unfoldable pub is_job_succeeded : JobStatus → Bool
unfolding find_success
is_job_succeeded status = some? (find_success status)

unfoldable pub is_job_failed : JobStatus → Bool
unfolding find_failure
is_job_failed status = some? (find_failure status)

unfoldable pub is_job_running : JobStatus → Bool
is_job_running status = ltb 0 status.active
