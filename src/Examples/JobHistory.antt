-- ===== src/Examples/JobHistory.antt =====
-- A cleanup that keeps one succeeded batch of two.
use radix_operator.Prelude.{
  ℕ, ◌≤◌, ◌<◌, ◌&&◌, String, true, ◌≡◌, ◌⊎◌, refl, any, find_all, map, none, some, List, [], ◌∷◌,
  Memᴰ, length, ◌==◌,
}
use mathlib.Core.List.Permᴰ
use radix_operator.Batch.Types.{RadixBatch, RadixBatchConditionType, RadixBatchReconcileStatus}
use radix_operator.JobScheduler.Batches.{DeleteAnswer}
use radix_operator.JobScheduler.History.{
  SchedulerState, CleanupAnswers, Kind, succeeded_radix_batches, is_of_kind, cleanup,
  is_rjs1_completed_before_rjs2,
}
use radix_operator.JobScheduler.History.Oldest.{cleanup-deletes, cleanup_limit}
use radix_operator.JobScheduler.History.Order.{not_before}

abbrev completed_batch : String → ℕ → RadixBatch
completed_batch name time = record {
  name = name;
  generation = 1;
  creation_timestamp = 1;
  component_label = "compute";
  type_label = "batch";
  jobs = [];
  status = record {
    job_statuses = [];
    condition = record {
      condition_type = RadixBatchConditionType.completed;
      reason = "";
      message = "";
      active_time = some 1;
      completion_time = some time;
    };
    reconciled = 0;
    observed_generation = 1;
    reconcile_status = RadixBatchReconcileStatus.unset;
    message = "";
  };
}

abbrev state : SchedulerState
state = record {
  last_cleanup_time = 0;
  existing_names = "old" ∷ "new" ∷ [];
  batches = completed_batch "old" 10 ∷ completed_batch "new" 20 ∷ [];
}

abbrev answers : CleanupAnswers
answers = record {
  list_error = none;
  delete_answer = λ _. DeleteAnswer.deleted;
  secrets_error = none;
}

-- The batches are stored in the order of their completion.
abbrev sort : List RadixBatch → List RadixBatch
sort bs = bs

cleanup-deletes_example :
    Memᴰ (completed_batch "old" 10) (cleanup sort answers 1 5000 state).0.batches
    ⊎ ((k : Kind) × (is_of_kind 5000 k (completed_batch "old" 10) ≡ true)
        × (1
            < length (
                find_all
                  (λ x. is_of_kind 5000 k x && not_before (completed_batch "old" 10) x)
                  state.batches)))
unfolding is_rjs1_completed_before_rjs2
cleanup-deletes_example =
    cleanup-deletes sort answers 1 5000 state (completed_batch "old" 10) (refl, (refl, tt))
      (Permᴰ.refl state.batches) ((refl, tt), (tt, tt)) (Memᴰ.head refl)

cleanup_limit_example :
    length (
      find_all
        (λ x.
          is_of_kind 5000 succeeded_radix_batches x
          && any (λ b. b.name == x.name) (cleanup sort answers 1 5000 state).0.batches)
        state.batches)
    ≤ 1
unfolding cleanup
cleanup_limit_example =
    cleanup_limit sort answers 1 5000 state succeeded_radix_batches (Permᴰ.refl state.batches) refl
      refl

-- The older batch is deleted.
old_is_deleted : map (λ b. b.name) (cleanup sort answers 1 5000 state).0.batches ≡ "new" ∷ []
unfolding cleanup
old_is_deleted = refl
