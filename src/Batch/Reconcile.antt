-- ===== src/Batch/Reconcile.antt =====
-- The reconciliation of a batch: `OnSync` and `reconcile` of pkg/apis/batch/syncer.go,
-- `reconcileKubeJob` and `deleteJobs` of kubejob.go, and `reconcileService` of service.go. The
-- Kubernetes jobs and services of the batch are state, which nobody else changes; a deleted job is
-- gone at once. The other answers of the API server are in `Answers`, by the name of the object or
-- batch job. The volumes and the content of a Kubernetes job are left out, but for their errors.
pub mod From
pub mod Stopped
pub mod Loop
use radix_operator.Prelude.{
  ℕ, suc, String, Bool, true, false, not, ◌&&◌, ◌||◌, ◌+◌, Option, none, some, List, [], ◌∷◌, ◌++◌,
  ◌==◌, ◌+++◌, any, find_all, nat_beq, if◌then◌else◌,
}
use Prim.Native.Nat.{◌%◌}
use radix_operator.Kube.Job.{Job}
use radix_operator.Batch.Types.{
  RadixBatchConditionType, RadixBatchCondition, RadixBatchJob, RadixBatchStatus, RadixBatch,
}
use radix_operator.Batch.Phases.{
  is_batch_job_stop_requested, is_kube_job_for_batch_job, job_requires_restart, is_batch_done,
  is_batch_job_done, is_restart_requested_for_any_batch_job,
}
use radix_operator.Batch.JobStatus.{Observed}
use radix_operator.Batch.Sync as Sync
use radix_operator.Batch.Sync.{
  ReconcileError, status_error, other_error, invalid_deployment_reference_reason, Outcome,
  sync_status,
}

-- The answer to the deletion of a Kubernetes job.
pub data DeleteAnswer : Type 0 where
  deleted not_found : DeleteAnswer
  failed : String → DeleteAnswer

-- The deployment of the batch: whether it has the job component, and if so, whether that one has
-- ports.
pub data DeploymentAnswer : Type 0 where
  deployment : Option Bool → DeploymentAnswer
  no_deployment : DeploymentAnswer
  deployment_failed : String → DeploymentAnswer

-- `prepare` is the error of the payload secret, the volumes or the content of a Kubernetes job;
-- `observed` and `sync` are for the call of `syncStatus` after the batch job with a number, and
-- `observed_last` and `sync_last` for that of `OnSync`. What is observed has the time and the pods.
pub record Answers : Type 0 where
  pub deployment : DeploymentAnswer
  pub list_jobs : Option String
  pub list_services : Option String
  pub apply_service : String → Option String
  pub delete_job : String → DeleteAnswer
  pub prepare : String → Option String
  pub create_job : String → Option String
  pub observed : ℕ → Observed
  pub sync : ℕ → Sync.Answers
  pub observed_last : Observed
  pub sync_last : Sync.Answers

-- What the syncer and the API server hold. `services` are the batch jobs that services are
-- labelled with.
pub record Syncer : Type 0 where
  pub batch : RadixBatch
  pub restarted_jobs : List RadixBatchJob
  pub kube_jobs : List Job
  pub services : List String
  pub error : Option ReconcileError

fail : String → Syncer → Syncer
fail e s = record s { error = some (other_error e) }

-- `if err := ...; err != nil { return err }`
unfoldable pub unless_returned : Option ReconcileError → Syncer → (Syncer → Syncer) → Syncer
unless_returned none s rest = rest s
unless_returned (some e) s rest = record s { error = some e }

unfoldable pub unless_failed : Option String → Syncer → (Syncer → Syncer) → Syncer
unfolding fail
unless_failed none s rest = rest s
unless_failed (some e) s rest = fail e s

unfoldable pub without_job : String → List Job → List Job
without_job name = find_all (λ k. not (k.name == name))

delete_answered : DeleteAnswer → Job → Syncer → Syncer
unfolding fail without_job
delete_answered deleted k s = record s { kube_jobs = without_job k.name s.kube_jobs }
delete_answered not_found k s = record s { kube_jobs = without_job k.name s.kube_jobs }
delete_answered (failed e) k s = fail e s

-- `newReconcileWaitingError` with the reason of an invalid reference to a deployment.
invalid_reference : String → Option ReconcileError
invalid_reference message = some (
    status_error (record {
      condition_type = RadixBatchConditionType.waiting;
      reason = invalid_deployment_reference_reason;
      message = message;
      active_time = none;
      completion_time = none;
    }))

-- `getRadixDeploymentAndJobComponent`: its error.
deployment_error : DeploymentAnswer → String → String → Option ReconcileError
unfolding invalid_reference
deployment_error (deployment (some has_ports)) rd job = none
deployment_error (deployment none) rd job =
    invalid_reference
      ("radixdeployment '" +++ rd +++ "' does not contain a job with name '" +++ job +++ "'")
deployment_error no_deployment rd job =
    invalid_reference ("radixdeployment '" +++ rd +++ "' not found")
deployment_error (deployment_failed e) rd job = some (other_error e)

has_ports_of : DeploymentAnswer → Bool
has_ports_of (deployment (some has_ports)) = has_ports
has_ports_of _ = false

module _ (answers : Answers) where
  unfoldable pub delete_jobs : List Job → Syncer → Syncer
  unfolding delete_answered unless_returned
  delete_jobs [] s = s
  delete_jobs (k ∷ ks) s =
      let t = delete_answered (answers.delete_job k.name) k s in
      unless_returned t.error t (delete_jobs ks)

  -- The Kubernetes job that `buildJob` makes, as far as it is modelled: its name and the label.
  new_job : RadixBatch → RadixBatchJob → Job
  new_job batch job = record {
    name = batch.name +++ "-" +++ job.name;
    batch_job_name = some job.name;
    creation_timestamp = 0;
    status = record {
      conditions = [];
      start_time = none;
      completion_time = none;
      active = 0;
      failed_pods = 0;
      ready = none;
    };
  }

  -- The end of `reconcileKubeJob`.
  create_job : RadixBatchJob → Syncer → Syncer
  unfolding new_job unless_failed
  create_job job s = unless_failed (answers.prepare job.name) s (λ t.
      unless_failed (answers.create_job job.name) t
        (λ u. record u { kube_jobs = u.kube_jobs ++ new_job u.batch job ∷ [] }))

  -- What follows for a job that must be restarted.
  restart_job : List Job → RadixBatchJob → Syncer → Syncer
  unfolding create_job delete_jobs unless_returned
  restart_job own job s =
      let t = delete_jobs own (record s { restarted_jobs = job ∷ s.restarted_jobs }) in
      unless_returned t.error t (create_job job)

  has_jobs : List Job → Bool
  has_jobs [] = false
  has_jobs (k ∷ ks) = true

  -- `existing` are the Kubernetes jobs listed at the start.
  unfoldable pub reconcile_kube_job : List Job → RadixBatchJob → Syncer → Syncer
  unfolding restart_job create_job delete_jobs has_jobs
  reconcile_kube_job existing job s =
      let own = find_all (is_kube_job_for_batch_job job) existing in
      if is_batch_job_stop_requested job
      then delete_jobs own s
      else if job_requires_restart s.batch.status job
      then restart_job own job s
      else if is_batch_job_done s.batch.status job.name || has_jobs own
      then s
      else create_job job s

  unfoldable pub reconcile_service : Bool → List String → RadixBatchJob → Syncer → Syncer
  unfolding unless_failed
  reconcile_service has_ports existing job s =
      if not has_ports
        || is_batch_job_stop_requested job
        || is_batch_job_done s.batch.status job.name
        || any (λ name. name == job.name) existing
      then s
      else unless_failed (answers.apply_service job.name) s
          (λ t. record t { services = t.services ++ job.name ∷ [] })

  -- `syncStatus` of the syncer, with what it observes.
  sync_observed : Observed → Sync.Answers → Option ReconcileError → Syncer → Syncer
  unfolding sync_status
  sync_observed observed sync e s =
      let o =
        sync_status (record observed { kube_jobs = s.kube_jobs; restarted_jobs = s.restarted_jobs })
          sync e s.batch in
      record s { batch = o.batch; error = o.error }

  -- The status is synced after every tenth batch job.
  unfoldable pub sync_every_tenth : ℕ → Syncer → Syncer
  unfolding sync_observed
  sync_every_tenth i s =
      if nat_beq (i % 10) 9 then sync_observed (answers.observed i) (answers.sync i) none s else s

  -- The loop over the batch jobs from the number `i`.
  unfoldable pub reconcile_jobs :
      Bool → List Job → List String → ℕ → List RadixBatchJob → Syncer → Syncer
  unfolding reconcile_service reconcile_kube_job sync_every_tenth unless_returned
  reconcile_jobs has_ports existing services i [] s = s
  reconcile_jobs has_ports existing services i (job ∷ jobs) s =
      let t = reconcile_service has_ports services job s in
      unless_returned t.error t (λ t.
        let u = reconcile_kube_job existing job t in
        unless_returned u.error u (λ u.
          let v = sync_every_tenth i u in
          unless_returned v.error v (reconcile_jobs has_ports existing services (suc i) jobs)))

  unfoldable pub reconcile : String → String → Syncer → Syncer
  unfolding deployment_error has_ports_of unless_returned unless_failed reconcile_jobs
  reconcile rd job s = unless_returned (deployment_error answers.deployment rd job) s (λ s.
      unless_failed answers.list_jobs s (λ s. unless_failed answers.list_services s (λ s.
        reconcile_jobs (has_ports_of answers.deployment) s.kube_jobs s.services 0 s.batch.jobs s)))

  unfoldable pub on_sync : String → String → Syncer → Syncer
  unfolding reconcile sync_observed
  on_sync rd job s =
      if is_batch_done s.batch && not (is_restart_requested_for_any_batch_job s.batch)
      then s
      else let t = reconcile rd job s in
        sync_observed answers.observed_last answers.sync_last t.error t
