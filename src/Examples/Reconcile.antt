-- ===== src/Examples/Reconcile.antt =====
-- A batch with a finished job and a running one that must stop.
use radix_operator.Prelude.{String, true, false, ◌≡◌, refl, none, some, [], ◌∷◌, Memᴰ, any}
use radix_operator.Batch.Phases.{
  is_kube_job_for_batch_job, is_batch_job_stop_requested, is_batch_job_done, job_requires_restart,
}
use radix_operator.Batch.Reconcile.{Answers, deployment, deleted, DeleteAnswer, Syncer, reconcile}
use radix_operator.Batch.Reconcile.Loop.{reconcile-stops}
use radix_operator.Examples.Batch as Batch

abbrev delete : String → DeleteAnswer
delete name = deleted

abbrev answers : Answers
answers = record {
  deployment = deployment (some true);
  list_jobs = none;
  list_services = none;
  apply_service = λ name. none;
  delete_job = delete;
  prepare = λ name. none;
  create_job = λ name. none;
  observed = λ i. Batch.observed;
  sync = λ i. Batch.accepted;
  observed_last = Batch.observed;
  sync_last = Batch.accepted;
}

abbrev syncer : Syncer
syncer = record {
  batch = Batch.batch Batch.jobs Batch.active_batch;
  restarted_jobs = [];
  kube_jobs = Batch.kube_job ∷ [];
  services = [];
  error = none;
}

reconcile-stops_example :
    any
      (is_kube_job_for_batch_job (Batch.job "two" (some true)))
      (reconcile answers "deploy" "compute" syncer).kube_jobs
    ≡ false
unfolding reconcile is_kube_job_for_batch_job is_batch_job_stop_requested is_batch_job_done
    job_requires_restart
reconcile-stops_example =
    reconcile-stops answers "deploy" "compute" syncer (Batch.job "two" (some true))
      (refl, (refl, tt)) refl (Memᴰ.tail (Memᴰ.head refl)) refl
