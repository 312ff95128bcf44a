-- ===== src/Batch/Types.antt =====
-- The RadixBatch of pkg/apis/radix/v1/radixbatchtypes.go, with the fields that pkg/apis/batch
-- and the job scheduler read or write.
use radix_operator.Prelude.{ℕ, String, Bool, Option, List}

pub data RadixBatchJobPhase : Type 0 where
  unset waiting active running succeeded failed stopped : RadixBatchJobPhase

-- `unknown` is the phase of a Kubernetes pod that the type conversion lets through.
pub data RadixBatchJobPodPhase : Type 0 where
  pending running succeeded failed unknown stopped : RadixBatchJobPodPhase

pub data RadixBatchConditionType : Type 0 where
  unset waiting active completed : RadixBatchConditionType

pub record RadixBatchJob : Type 0 where
  pub name : String
  pub job_id : String
  pub stop : Option Bool
  pub restart : String

pub record RadixBatchJobPodStatus : Type 0 where
  pub name : String
  pub phase : RadixBatchJobPodPhase
  pub reason : String
  pub message : String
  pub exit_code : ℕ
  pub creation_time : Option ℕ
  pub start_time : Option ℕ
  pub end_time : Option ℕ
  pub restart_count : ℕ
  pub image : String
  pub image_id : String
  pub pod_index : ℕ

pub record RadixBatchJobStatus : Type 0 where
  pub name : String
  pub phase : RadixBatchJobPhase
  pub reason : String
  pub message : String
  pub creation_time : Option ℕ
  pub start_time : Option ℕ
  pub end_time : Option ℕ
  pub failed : ℕ
  pub restart : String
  pub pod_statuses : List RadixBatchJobPodStatus

pub record RadixBatchCondition : Type 0 where
  pub condition_type : RadixBatchConditionType
  pub reason : String
  pub message : String
  pub active_time : Option ℕ
  pub completion_time : Option ℕ

pub data RadixBatchReconcileStatus : Type 0 where
  unset reconcile_succeeded reconcile_failed : RadixBatchReconcileStatus

pub record RadixBatchStatus : Type 0 where
  pub job_statuses : List RadixBatchJobStatus
  pub condition : RadixBatchCondition
  pub reconciled : ℕ
  pub observed_generation : ℕ
  pub reconcile_status : RadixBatchReconcileStatus
  pub message : String

-- `component_label` and `type_label` are the labels radix-component and radix-batch-type.
pub record RadixBatch : Type 0 where
  pub name : String
  pub generation : ℕ
  pub creation_timestamp : ℕ
  pub component_label : String
  pub type_label : String
  pub jobs : List RadixBatchJob
  pub status : RadixBatchStatus
