-- ===== src/Batch/Sync.antt =====
-- The status of the batch: `syncStatus` of pkg/apis/batch/status.go. The answers of the API server
-- are arguments: the error of the list of Kubernetes jobs and of each of the two status updates.
-- An update that fails leaves the syncer's batch as it was.
pub mod Conditions
use radix_operator.Prelude.{
  ℕ, String, Bool, true, false, not, ◌&&◌, Option, none, some, List, [], ◌∷◌, ◌==◌, all,
  if◌then◌else◌,
}
use radix_operator.Batch.Types.{
  RadixBatchConditionType, RadixBatchJob, RadixBatchJobStatus, RadixBatchCondition,
  RadixBatchReconcileStatus, reconcile_succeeded, reconcile_failed, RadixBatchStatus, RadixBatch,
}
use radix_operator.Batch.Phases.{is_job_status_waiting, is_job_status_done}
use radix_operator.Batch.JobStatus.{Observed, build_job_statuses}

-- The error of a reconciliation: one that carries a condition, or any other.
pub data ReconcileError : Type 0 where
  status_error : RadixBatchCondition → ReconcileError
  other_error : String → ReconcileError

-- `Error()`
abbrev pub error_message : ReconcileError → String
error_message (status_error condition) = condition.message
error_message (other_error message) = message

abbrev pub invalid_deployment_reference_reason : String
invalid_deployment_reference_reason = "InvalidDeploymentReference"

unfoldable pub condition_type_of : List RadixBatchJobStatus → RadixBatchConditionType
condition_type_of statuses =
    if all is_job_status_waiting statuses
    then RadixBatchConditionType.waiting
    else if all is_job_status_done statuses
    then RadixBatchConditionType.completed
    else RadixBatchConditionType.active

-- `if t == nil { t = &now }`
abbrev or_now : Option ℕ → ℕ → Option ℕ
or_now none now = some now
or_now (some t) now = some t

-- The second `switch`. No condition type is computed but the three.
times_of : RadixBatchConditionType → ℕ → RadixBatchCondition → RadixBatchCondition
times_of RadixBatchConditionType.waiting now c = record c {
  active_time = none;
  completion_time = none;
}
times_of RadixBatchConditionType.active now c = record c {
  active_time = or_now c.active_time now;
  completion_time = none;
}
times_of RadixBatchConditionType.completed now c = record c {
  active_time = or_now c.active_time now;
  completion_time = or_now c.completion_time now;
}
times_of RadixBatchConditionType.unset now c = c

unfoldable pub update_condition :
    RadixBatchConditionType → ℕ → RadixBatchCondition → RadixBatchCondition
unfolding times_of
update_condition t now c =
    times_of t now (record c { condition_type = t; reason = ""; message = "" })

reconciled_as : Option ReconcileError → RadixBatchStatus → RadixBatchStatus
reconciled_as none s = record s { reconcile_status = reconcile_succeeded; message = "" }
reconciled_as (some e) s = record s {
  reconcile_status = reconcile_failed;
  message = error_message e;
}

-- The function that the first update of the status applies.
unfoldable pub change_status :
    ℕ → ℕ → Option ReconcileError → List RadixBatchJobStatus → RadixBatchStatus → RadixBatchStatus
unfolding reconciled_as update_condition condition_type_of
change_status now generation e statuses s = reconciled_as e (record s {
  job_statuses = statuses;
  condition = update_condition (condition_type_of statuses) now s.condition;
  reconciled = now;
  observed_generation = generation;
})

-- The errors of the calls of the API server in one `syncStatus`.
pub record Answers : Type 0 where
  pub list_jobs : Option String
  pub first_update : Option String
  pub second_update : Option String

-- The batch that the syncer holds afterwards, and the error that it returns.
pub record Outcome : Type 0 where
  pub batch : RadixBatch
  pub error : Option ReconcileError

-- `s.updateStatus`, then the rest of the function unless it fails.
update_status :
    Option String
    → (RadixBatchStatus → RadixBatchStatus)
    → RadixBatch
    → (RadixBatch → Outcome)
    → Outcome
update_status (some message) change batch rest = record {
  batch = batch;
  error = some (other_error message);
}
update_status none change batch rest = rest (record batch { status = change batch.status })

-- What follows the first update.
report_error :
    Option String → List RadixBatchJobStatus → Option ReconcileError → RadixBatch → Outcome
unfolding update_status
report_error second statuses none batch = record { batch = batch; error = none }
report_error second statuses (some (other_error m)) batch = record {
  batch = batch;
  error = some (other_error m);
}
report_error second statuses (some (status_error condition)) batch =
    if condition.reason == invalid_deployment_reference_reason && all is_job_status_done statuses
    then record { batch = batch; error = none }
    else update_status second (λ s. record s { condition = condition }) batch
        (λ updated. record { batch = updated; error = some (status_error condition) })

sync_listed : Option String → Observed → Answers → Option ReconcileError → RadixBatch → Outcome
unfolding update_status report_error
sync_listed (some message) o answers e batch = record {
  batch = batch;
  error = some (other_error message);
}
sync_listed none o answers e batch =
    let statuses = build_job_statuses o batch.status.job_statuses batch.jobs in
    update_status answers.first_update (change_status o.now batch.generation e statuses) batch
      (report_error answers.second_update statuses e)

unfoldable pub sync_status : Observed → Answers → Option ReconcileError → RadixBatch → Outcome
unfolding sync_listed
sync_status o answers = sync_listed answers.list_jobs o answers
