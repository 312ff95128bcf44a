-- ===== src/Batch/Sync/Conditions.antt =====
-- What a sync of the status makes of the condition of the batch.
use radix_operator.Prelude.{
  ℕ, Bool, true, false, ◌≡◌, refl, ◌≢◌, ◌↔◌, Option, none, some, List, ◌∷◌, all, some?, arith,
}
use radix_operator.Batch.Types.{
  RadixBatchConditionType, unset, waiting, active, completed, RadixBatchJobStatus,
  RadixBatchCondition, RadixBatchStatus, RadixBatch,
}
use radix_operator.Batch.Phases.{is_job_status_done}
use radix_operator.Batch.JobStatus.{Observed, build_job_statuses}
use radix_operator.Batch.Sync.{
  ReconcileError, status_error, other_error, condition_type_of, update_condition, change_status,
  Answers, sync_status,
}

-- Which times a condition of a type has.
abbrev pub TimesFit : RadixBatchConditionType → Option ℕ → Option ℕ → Type 0
TimesFit waiting active_time completion_time = (active_time ≡ none) × (completion_time ≡ none)
TimesFit active active_time completion_time = (some? active_time ≡ true) × (completion_time ≡ none)
TimesFit completed active_time completion_time =
    (some? active_time ≡ true) × (some? completion_time ≡ true)
TimesFit unset active_time completion_time = ⊥

condition_type_of-ne-unset :
    (statuses : List RadixBatchJobStatus) → condition_type_of statuses ≢ unset
unfolding condition_type_of
condition_type_of-ne-unset statuses = ground arith

update_condition-TimesFit :
    (t : RadixBatchConditionType) (now : ℕ) (c : RadixBatchCondition)
    → t ≢ unset
    → let n = update_condition t now c in TimesFit n.condition_type n.active_time n.completion_time
unfolding update_condition
update_condition-TimesFit waiting now c h = ground arith
update_condition-TimesFit active now c h = ground arith
update_condition-TimesFit completed now c h = ground arith
update_condition-TimesFit unset now c h = absurd (h refl)

change_status-TimesFit :
    (now generation : ℕ) (e : Option ReconcileError) (statuses : List RadixBatchJobStatus)
    (s : RadixBatchStatus)
    → let c = (change_status now generation e statuses s).condition in
      TimesFit c.condition_type c.active_time c.completion_time
unfolding change_status
change_status-TimesFit now generation none statuses s =
    update_condition-TimesFit (condition_type_of statuses) now s.condition
      (condition_type_of-ne-unset statuses)
change_status-TimesFit now generation (some e) statuses s =
    update_condition-TimesFit (condition_type_of statuses) now s.condition
      (condition_type_of-ne-unset statuses)

update_condition_keeps_times :
    (type : RadixBatchConditionType) (now t : ℕ) (c : RadixBatchCondition)
    → let n = update_condition type now c in
      (c.active_time ≡ some t → n.condition_type ≢ waiting → n.active_time ≡ some t)
      × (c.completion_time ≡ some t → n.condition_type ≡ completed → n.completion_time ≡ some t)
unfolding update_condition
update_condition_keeps_times waiting now t c = (λ e h. absurd (h refl), λ e h. cc)
update_condition_keeps_times active now t c = (λ e h. ground arith, λ e h. cc)
update_condition_keeps_times completed now t c = (λ e h. ground arith, λ e h. ground arith)
update_condition_keeps_times unset now t c = (λ e h. e, λ e h. e)

-- The time of the activation, once set, stays as it is in every sync that leaves the batch Active
-- or Completed.
change_status_keeps_active_time :
    (now generation t : ℕ) (e : Option ReconcileError) (statuses : List RadixBatchJobStatus)
    (s : RadixBatchStatus)
    → s.condition.active_time ≡ some t
    → (change_status now generation e statuses s).condition.condition_type ≢ waiting
    → (change_status now generation e statuses s).condition.active_time ≡ some t
unfolding change_status
change_status_keeps_active_time now generation t none statuses s =
    (update_condition_keeps_times (condition_type_of statuses) now t s.condition).0
change_status_keeps_active_time now generation t (some e) statuses s =
    (update_condition_keeps_times (condition_type_of statuses) now t s.condition).0

-- The time of the completion, once set, stays as it is in every sync that leaves the batch
-- Completed.
change_status_keeps_completion_time :
    (now generation t : ℕ) (e : Option ReconcileError) (statuses : List RadixBatchJobStatus)
    (s : RadixBatchStatus)
    → s.condition.completion_time ≡ some t
    → (change_status now generation e statuses s).condition.condition_type ≡ completed
    → (change_status now generation e statuses s).condition.completion_time ≡ some t
unfolding change_status
change_status_keeps_completion_time now generation t none statuses s =
    (update_condition_keeps_times (condition_type_of statuses) now t s.condition).1
change_status_keeps_completion_time now generation t (some e) statuses s =
    (update_condition_keeps_times (condition_type_of statuses) now t s.condition).1

-- A batch with jobs is Completed exactly when each of its jobs has a final phase.
condition_type_of-completed :
    (s : RadixBatchJobStatus) (ss : List RadixBatchJobStatus)
    → (condition_type_of (s ∷ ss) ≡ completed) ↔ (all is_job_status_done (s ∷ ss) ≡ true)
unfolding condition_type_of
condition_type_of-completed s ss = (λ h. ground arith, λ h. ground arith)

-- The error of the reconciliation carries a condition of its own.
abbrev pub carries_condition : Option ReconcileError → Bool
carries_condition (some (status_error condition)) = true
carries_condition (some (other_error message)) = false
carries_condition none = false

-- Whatever condition the batch had, a sync that can list the jobs and store the status, after a
-- reconciliation whose error, if any, carries no condition of its own, leaves one of the three types,
-- with no time if it is Waiting, only the active time if it is Active, and both times if it is
-- Completed.
pub sync_status-TimesFit :
    (o : Observed) (answers : Answers) (e : Option ReconcileError) (batch : RadixBatch)
    → answers.list_jobs ≡ none
    → answers.first_update ≡ none
    → carries_condition e ≡ false
    → let c = (sync_status o answers e batch).batch.status.condition in
      TimesFit c.condition_type c.active_time c.completion_time
unfolding sync_status
sync_status-TimesFit o answers none batch listed stored plain =
    rw (listed, stored)
      (change_status-TimesFit o.now batch.generation none
        (build_job_statuses o batch.status.job_statuses batch.jobs) batch.status)
sync_status-TimesFit o answers (some (other_error m)) batch listed stored plain =
    rw (listed, stored)
      (change_status-TimesFit o.now batch.generation (some (other_error m))
        (build_job_statuses o batch.status.job_statuses batch.jobs) batch.status)
sync_status-TimesFit o answers (some (status_error c)) batch listed stored plain =
    absurd (ground arith)
