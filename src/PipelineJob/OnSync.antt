-- ===== src/PipelineJob/OnSync.antt =====
-- The reconciliation of a pipeline job: `OnSync`, `handleStop`, `handleJobQueueing`, `queueJob`,
-- `reconcile`, `syncTargetEnvironments` and `setNextJobToWaiting` of pkg/apis/job/job.go, over
-- the pipeline jobs that the API server stores in the namespace. The other answers of the API
-- server are in `Answers`. `sort` is `sortRadixJobsByCreatedAsc`. Nobody else writes to the
-- namespace while the function runs. The words that the code puts before an error are left out.
pub mod Keeps
pub mod Steps
pub mod Refines
use radix_operator.Prelude.{
  ℕ, String, Bool, true, false, Option, none, some, List, [], ◌∷◌, if◌then◌else◌,
}
use radix_operator.PipelineJob.Types.{
  RadixJobCondition, queued, waiting, is_done, is_queued_or_empty, reconcile_succeeded,
  RadixJobStatus, RadixJob, RadixApplication,
}
use radix_operator.PipelineJob.Targets.{no_targets, get_target_environments}
use radix_operator.PipelineJob.Queue.{must_queue, next_job_to_waiting, set_condition}
use radix_operator.PipelineJob.Queue.Exclusion.{replace_job}
use radix_operator.PipelineJob.Status.{Outcome, updated, stop_job}
use radix_operator.PipelineJob.Deletion.{DeletionAnswers, delete_pipeline_jobs}
use radix_operator.PipelineJob.Status.Sync as Sync
use radix_operator.PipelineJob.History.ConfigMaps.{ApplicationAnswer, found, not_found}

-- The answer to the request for the Kubernetes job of the pipeline.
pub data JobAnswer : Type 0 where
  exists : JobAnswer
  missing : JobAnswer
  failed : String → JobAnswer

-- What the API server answers; an `Option` is the error of a call, if it has one.
pub record Answers : Type 0 where
  pub application : ApplicationAnswer
  pub update_targets : Option String
  pub deletion : DeletionAnswers
  pub update_stopped : Option String
  pub list_for_queue : Option String
  pub update_queued : Option String
  pub kube_job : JobAnswer
  pub config_map : Option String
  pub create_job : Option String
  pub status : Sync.Answers
  pub list_for_next : Option String
  pub update_next : Option String

-- The job that the syncer holds, the stored jobs, and the error.
pub record World : Type 0 where
  pub own : RadixJob
  pub jobs : List RadixJob
  pub error : Option String

-- The syncer's job and the store after an update of its status.
unfoldable pub stored : Outcome → World → World
stored o w = record {
  own = o.radix_job;
  jobs = if o.is_stored then replace_job o.radix_job w.jobs else w.jobs;
  error = o.error;
}

-- `if err != nil { return err }`
unfoldable pub unless_error : Option String → World → (World → World) → World
unless_error none w rest = rest w
unless_error (some e) w rest = w

unfoldable pub create_pipeline_job : Option String → Option String → Option String
create_pipeline_job (some e) create_job = some e
create_pipeline_job none create_job = create_job

unfoldable pub reconcile : JobAnswer → Option String → Option String → Option String
unfolding create_pipeline_job
reconcile exists config_map create_job = none
reconcile missing config_map create_job = create_pipeline_job config_map create_job
reconcile (failed e) config_map create_job = some e

queued_status : ℕ → RadixJob → RadixJobStatus → RadixJobStatus
queued_status now rj s = record s {
  created = some rj.creation_timestamp;
  condition = queued;
  reconciled = now;
  reconcile_status = reconcile_succeeded;
  observed_generation = rj.generation;
}

unfoldable pub queue_job : ℕ → Option String → RadixJob → Outcome
unfolding queued_status updated
queue_job now update_error rj = updated update_error (queued_status now rj) rj

module _ (matches_pattern : String → String → Bool) (random_string : String → String)
    (sort : List RadixJob → List RadixJob) (now : ℕ) (answers : Answers) where
  unfoldable pub sync_target_environments : RadixApplication → World → World
  unfolding stored updated get_target_environments
  sync_target_environments ra w =
      if no_targets w.own.status.target_envs
      then stored
          (updated answers.update_targets
            (λ s. record s { target_envs = get_target_environments matches_pattern w.own ra })
            w.own)
          w
      else w

  promote : Option RadixJob → Option String → World → World
  unfolding replace_job
  promote none update_error w = w
  promote (some job) (some e) w = record w { error = some e }
  promote (some job) none w = record w { jobs = replace_job (set_condition waiting job) w.jobs }

  promote_listed : Option String → RadixApplication → World → World
  unfolding promote next_job_to_waiting
  promote_listed (some e) ra w = record w { error = some e }
  promote_listed none ra w =
      promote (next_job_to_waiting matches_pattern ra (sort w.jobs)) answers.update_next w

  unfoldable pub set_next_job_to_waiting : RadixApplication → World → World
  unfolding promote_listed
  set_next_job_to_waiting = promote_listed answers.list_for_next

  -- The rest of `handleStop` when a stop is requested.
  unfoldable pub stop_and_promote : RadixApplication → World → World
  unfolding stored unless_error stop_job set_next_job_to_waiting delete_pipeline_jobs
  stop_and_promote ra w =
      let s =
        stored
          (stop_job now (delete_pipeline_jobs answers.deletion w.own.name) answers.update_stopped
            w.own)
          w in
      unless_error s.error s (set_next_job_to_waiting ra)

  -- `syncStatus` with the error of `reconcile`, and the promotion after a job that is done.
  unfoldable pub sync_and_promote : RadixApplication → World → World
  unfolding stored unless_error reconcile set_next_job_to_waiting Sync.sync_status
  sync_and_promote ra w =
      let failure = reconcile answers.kube_job answers.config_map answers.create_job in
      let s = stored (Sync.sync_status now failure answers.status random_string w.own) w in
      unless_error s.error s
        (λ t. if is_done t.own.status.condition then set_next_job_to_waiting ra t else t)

  queue_or_sync : Option String → RadixApplication → World → World
  unfolding stored queue_job sync_and_promote must_queue
  queue_or_sync (some e) ra w = record w { error = some e }
  queue_or_sync none ra w =
      if must_queue matches_pattern ra w.own w.jobs
      then stored (queue_job now answers.update_queued w.own) w
      else sync_and_promote ra w

  -- `handleJobQueueing`, and what follows if the job is not queued.
  unfoldable pub handle_job_queueing : RadixApplication → World → World
  unfolding queue_or_sync sync_and_promote
  handle_job_queueing ra w =
      if is_queued_or_empty w.own.status.condition
      then queue_or_sync answers.list_for_queue ra w
      else sync_and_promote ra w

  unfoldable pub stop_or_queue : Bool → RadixApplication → World → World
  unfolding stop_and_promote handle_job_queueing
  stop_or_queue true ra w = stop_and_promote ra w
  stop_or_queue false ra w = handle_job_queueing ra w

  -- `handleStop`, and what follows if the job is not stopped.
  unfoldable pub handle_stop : RadixApplication → World → World
  unfolding stop_or_queue
  handle_stop ra w = stop_or_queue w.own.spec.stop ra w

  -- `OnSync` after the request for the application.
  unfoldable pub sync_with : RadixApplication → World → World
  unfolding sync_target_environments unless_error handle_stop
  sync_with ra w =
      if is_done w.own.status.condition
      then w
      else let t = sync_target_environments ra w in unless_error t.error t (handle_stop ra)

  by_application : ApplicationAnswer → World → World
  unfolding sync_with
  by_application (found ra) w = sync_with ra w
  by_application not_found w = sync_with (record { environments = [] }) w
  by_application (ApplicationAnswer.failed e) w = record w { error = some e }

  unfoldable pub on_sync : RadixJob → List RadixJob → World
  unfolding by_application
  on_sync own jobs =
      by_application answers.application (record { own = own; jobs = jobs; error = none })
