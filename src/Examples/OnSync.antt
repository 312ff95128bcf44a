-- ===== src/Examples/OnSync.antt =====
-- A reconciliation of one of two running pipeline jobs.
use radix_operator.Prelude.{refl, none, [], Memᴰ}
use radix_operator.PipelineJob.Types.{running}
use radix_operator.PipelineJob.Queue.Exclusion.{Reach}
use radix_operator.PipelineJob.Status.Sync.{listed}
use radix_operator.PipelineJob.History.ConfigMaps.{found}
use radix_operator.PipelineJob.Deletion.{deleted}
use radix_operator.PipelineJob.OnSync.{exists, Answers, on_sync}
use radix_operator.PipelineJob.OnSync.Refines.{on_sync-Reach}
use radix_operator.Examples.Queue.{same, app, to_dev, both_run, both_run-Reach}

abbrev answers : Answers
answers = record {
  application = found app;
  update_targets = none;
  deletion = record {
    delete_job = λ name. deleted;
    delete_pod = λ name. deleted;
    list_pods = λ name. listed [];
    list_step_jobs = listed [];
  };
  update_stopped = none;
  list_for_queue = none;
  update_queued = none;
  kube_job = exists;
  config_map = none;
  create_job = none;
  status = record { jobs = listed []; pods = listed []; deployments = listed []; update = none };
  list_for_next = none;
  update_next = none;
}

on_sync-Reach_example :
    Reach same app
      (on_sync same (λ name. name) (λ jobs. jobs) 9 answers (to_dev running) both_run).jobs
on_sync-Reach_example =
    on_sync-Reach same app (λ name. name) (λ jobs. jobs) 9 answers (λ jobs k m. m) (λ jobs k m. m)
      (to_dev running) both_run refl (Memᴰ.head refl) both_run-Reach
