-- ===== src/JobScheduler/History.antt =====
-- The history of the batches of a job component: job-scheduler/pkg/batch/history.go. The state is
-- the time of the last cleanup, the names that the caller keeps in a map, and the batches of the
-- component that the API server stores. `sort` is the `sort.Slice` of `sortRJSchByCompletionTimeAsc`,
-- by `is_rjs1_completed_before_rjs2`; the deletion of payload secrets gives its error. A context that is cancelled is left out.
pub mod Deleted
pub mod Order
pub mod Oldest
use radix_operator.Prelude.{
  ℕ, ◌+◌, ◌-◌, String, Bool, true, false, not, ◌&&◌, Option, none, some, List, [], ◌∷◌, ◌++◌, map,
  ◌==◌, any, all, ltb, length, take, find_all, if◌then◌else◌,
}
use radix_operator.Batch.Types.{RadixBatchConditionType, RadixBatchJobStatus, RadixBatch}
use radix_operator.Batch.Phases.{is_batch_done}
use radix_operator.JobScheduler.Stop.{is_radix_batch_job_succeeded}
use radix_operator.JobScheduler.Batches.{DeleteAnswer, delete_radix_batch_by_name}

-- 3600 and 60, in seconds
abbrev pub minimum_age_seconds : ℕ
minimum_age_seconds = 3600

abbrev pub cleanup_period_seconds : ℕ
cleanup_period_seconds = 60

unfoldable pub is_radix_batch_not_succeeded : RadixBatch → Bool
unfolding is_batch_done
is_radix_batch_not_succeeded batch =
    is_batch_done batch && any (λ s. not (is_radix_batch_job_succeeded s)) batch.status.job_statuses

unfoldable pub is_radix_batch_succeeded : RadixBatch → Bool
unfolding is_batch_done
is_radix_batch_succeeded batch =
    is_batch_done batch && all is_radix_batch_job_succeeded batch.status.job_statuses

-- `t != nil && t.Before(now - age)`
abbrev completed_before : Option ℕ → ℕ → Bool
completed_before none now = false
completed_before (some t) now = ltb (t + minimum_age_seconds) now

-- `completedBefore` is the time an hour before `now`.
unfoldable pub radix_batch_is_completed_before : ℕ → RadixBatch → Bool
radix_batch_is_completed_before now batch =
    completed_before batch.status.condition.completion_time now

-- `CompletionTime.IsZero()`: the creation counts without a completion.
abbrev completion_or : ℕ → Option ℕ → ℕ
completion_or created none = created
completion_or created (some t) = t

abbrev pub get_completion_time_from : RadixBatch → ℕ
get_completion_time_from batch =
    completion_or batch.creation_timestamp batch.status.condition.completion_time

unfoldable pub is_rjs1_completed_before_rjs2 : RadixBatch → RadixBatch → Bool
is_rjs1_completed_before_rjs2 batch1 batch2 =
    ltb (get_completion_time_from batch1) (get_completion_time_from batch2)

abbrev pub radix_batch_has_type : RadixBatch → String → Bool
radix_batch_has_type batch batch_type = batch.type_label == batch_type

-- The four lists of `CompletedRadixBatchNames`.
pub data Kind : Type 0 where
  succeeded_radix_batches not_succeeded_radix_batches : Kind
  succeeded_single_jobs not_succeeded_single_jobs : Kind

abbrev type_of : Kind → String
type_of succeeded_radix_batches = "batch"
type_of not_succeeded_radix_batches = "batch"
type_of succeeded_single_jobs = "job"
type_of not_succeeded_single_jobs = "job"

abbrev has_result : Kind → RadixBatch → Bool
has_result succeeded_radix_batches batch = is_radix_batch_succeeded batch
has_result not_succeeded_radix_batches batch = is_radix_batch_not_succeeded batch
has_result succeeded_single_jobs batch = is_radix_batch_succeeded batch
has_result not_succeeded_single_jobs batch = is_radix_batch_not_succeeded batch

unfoldable pub is_of_kind : ℕ → Kind → RadixBatch → Bool
unfolding is_radix_batch_not_succeeded is_radix_batch_succeeded radix_batch_is_completed_before
is_of_kind now kind batch =
    radix_batch_has_type batch (type_of kind)
    && has_result kind batch
    && radix_batch_is_completed_before now batch

-- `getSucceededRadixBatches` and the other three, over the sorted batches.
unfoldable pub names_of_kind : ℕ → Kind → List RadixBatch → List String
unfolding is_of_kind
names_of_kind now kind batches = map (λ b. b.name) (find_all (is_of_kind now kind) batches)

pub record SchedulerState : Type 0 where
  pub last_cleanup_time : ℕ
  pub existing_names : List String
  pub batches : List RadixBatch

-- `delete(existingRadixBatchNamesMap, name)`, after the deletion of the batch.
abbrev pub deleted_from :
    SchedulerState → String → List RadixBatch × Option String → SchedulerState × Option String
deleted_from s name (batches, none) = (
  record s { batches = batches; existing_names = find_all (λ n. not (n == name)) s.existing_names },
  none,
)
deleted_from s name (batches, some e) = (record s { batches = batches }, some e)

-- `if err != nil { return err }`
abbrev pub unless_error :
    (SchedulerState → SchedulerState × Option String)
    → SchedulerState × Option String
    → SchedulerState × Option String
unless_error rest (s, none) = rest s
unless_error rest (s, some e) = (s, some e)

abbrev pub error_list : Option String → List String
error_list none = []
error_list (some e) = e ∷ []

module _ (answers : String → DeleteAnswer) where
  -- The loop deletes the names until there is an error.
  unfoldable pub delete_names : List String → SchedulerState → SchedulerState × Option String
  unfolding delete_radix_batch_by_name
  delete_names [] s = (s, none)
  delete_names (name ∷ names) s =
      unless_error (delete_names names)
        (deleted_from s name (delete_radix_batch_by_name (answers name) name s.batches))

  -- The limit is a natural number: a limit below 0 would delete beyond the list.
  unfoldable pub cleanup_radix_batch_history :
      List String → ℕ → SchedulerState → SchedulerState × Option String
  unfolding delete_names
  cleanup_radix_batch_history names history_limit s =
      delete_names (take (length names - history_limit) names) s

  -- The four calls, and their errors.
  unfoldable pub cleanup_all :
      List (List String) → ℕ → SchedulerState → SchedulerState × List String
  unfolding cleanup_radix_batch_history
  cleanup_all [] history_limit s = (s, [])
  cleanup_all (names ∷ more) history_limit s =
      let (s', error) = cleanup_radix_batch_history names history_limit s in
      let (s'', errs) = cleanup_all more history_limit s' in (s'', error_list error ++ errs)

abbrev pub all_kinds : List Kind
all_kinds =
    succeeded_radix_batches ∷ not_succeeded_radix_batches ∷ succeeded_single_jobs
    ∷ not_succeeded_single_jobs ∷ []

-- The answers of the API server to one cleanup.
pub record CleanupAnswers : Type 0 where
  pub list_error : Option String
  pub delete_answer : String → DeleteAnswer
  pub secrets_error : Option String

module _ (sort : List RadixBatch → List RadixBatch) where
  -- `getCompletedRadixBatchesSortedByCompletionTimeAsc`
  unfoldable pub completed_names : ℕ → List RadixBatch → List (List String)
  unfolding names_of_kind
  completed_names now batches = map (λ k. names_of_kind now k (sort batches)) all_kinds

  unfoldable pub after_listing :
      CleanupAnswers → ℕ → ℕ → SchedulerState → Option String → SchedulerState × List String
  unfolding completed_names cleanup_all
  after_listing answers history_limit now s (some e) = (s, e ∷ [])
  after_listing answers history_limit now s none =
      let (s', errs) =
        cleanup_all answers.delete_answer (completed_names now s.batches) history_limit s in
      (s', errs ++ error_list answers.secrets_error)

  -- A cleanup within a minute of the last one does nothing.
  unfoldable pub cleanup : CleanupAnswers → ℕ → ℕ → SchedulerState → SchedulerState × List String
  unfolding after_listing
  cleanup answers history_limit now s =
      if ltb now (s.last_cleanup_time + cleanup_period_seconds)
      then (s, [])
      else after_listing answers history_limit now (record s { last_cleanup_time = now })
          answers.list_error
