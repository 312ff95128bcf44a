-- ===== src/Examples/Stop.antt =====
-- A stop of all batches, of which one has a finished job.
use radix_operator.Prelude.{
  String, true, ◌≡◌, ◌⊎◌, refl, any, map, none, some, Option, List, [], ◌∷◌, is_empty, equal_fold,
  if◌then◌else◌,
}
use radix_operator.Batch.Types.{
  RadixBatchJob, RadixBatchJobStatus, RadixBatch, RadixBatchJobPhase, RadixBatchConditionType,
  RadixBatchReconcileStatus,
}
use radix_operator.JobScheduler.Stop.{Answers, stop_radix_batch_job, done}
use radix_operator.JobScheduler.Stop.Reference.{stop_selected, Partly}
use radix_operator.JobScheduler.Stop.Refines.{stop_radix_batch_job-stops}
use radix_operator.JobScheduler.Stop.Succeeds.{stop_all_batches_succeeds}

abbrev job : String → RadixBatchJob
job name = record { name = name; job_id = ""; stop = none; restart = "" }

abbrev finished_job : RadixBatchJobStatus
finished_job = record {
  name = "one";
  phase = RadixBatchJobPhase.succeeded;
  reason = "";
  message = "";
  creation_time = some 1;
  start_time = some 2;
  end_time = some 3;
  failed = 0;
  restart = "";
  pod_statuses = [];
}

abbrev active_batch : String → RadixBatch
active_batch name = record {
  name = name;
  generation = 1;
  creation_timestamp = 1;
  component_label = "compute";
  type_label = "batch";
  jobs = job "one" ∷ job "two" ∷ [];
  status = record {
    job_statuses = finished_job ∷ [];
    condition = record {
      condition_type = RadixBatchConditionType.active;
      reason = "";
      message = "";
      active_time = some 1;
      completion_time = none;
    };
    reconciled = 0;
    observed_generation = 1;
    reconcile_status = RadixBatchReconcileStatus.unset;
    message = "";
  };
}

abbrev batches : List RadixBatch
batches = active_batch "first" ∷ active_batch "second" ∷ []

abbrev second_fails : String → Option String
second_fails name = if equal_fold name "second" then some "conflict" else none

abbrev conflict : Answers
conflict = record { list_error = none; update_error = second_fails }

abbrev fine : Answers
fine = record { list_error = none; update_error = λ _. none }

stop_radix_batch_job-stops_example :
    Partly "" batches (stop_radix_batch_job "" "" batches (conflict ∷ []) fine).0
    × ((stop_radix_batch_job "" "" batches (conflict ∷ []) fine).1 ≡ done
        → ((stop_radix_batch_job "" "" batches (conflict ∷ []) fine).0
            ≡ map (stop_selected "") batches)
          × ((is_empty "" ≡ true) ⊎ (any (λ b. equal_fold b.name "") batches ≡ true)))
stop_radix_batch_job-stops_example = stop_radix_batch_job-stops "" batches (conflict ∷ []) fine

stop_all_batches_succeeds_example :
    (stop_radix_batch_job "" "" batches (conflict ∷ []) fine).1 ≡ done
stop_all_batches_succeeds_example =
    stop_all_batches_succeeds batches (conflict ∷ []) fine refl (λ _. refl)
