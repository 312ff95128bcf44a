-- ===== src/PipelineJob/OnSync/Refines.antt =====
-- `OnSync` of pkg/apis/job/job.go as steps of a namespace.
use radix_operator.Prelude.{
  ℕ, String, Bool, true, false, ◌≡◌, refl, ap, ◌∙◌, inl, inr, Option, none, some, List, Memᴰ,
  Bool-cases, if◌then◌else◌,
}
use radix_operator.PipelineJob.Types.{
  is_done, is_queued_or_empty, RadixJobStatus, RadixJob, RadixApplication,
}
use radix_operator.PipelineJob.Targets.{no_targets, get_target_environments}
use radix_operator.PipelineJob.Queue.{must_queue, next_job_to_waiting}
use radix_operator.PipelineJob.Queue.Exclusion.{
  replace_job, Same, Step, touch, enqueue, start, progress, stop, promote, Reach, next,
}
use radix_operator.PipelineJob.Status.{updated, stop_job}
use radix_operator.PipelineJob.Status.Kept.{updated-Kept, stop_job-Kept, stop_job-stopped}
use radix_operator.PipelineJob.Deletion.{delete_pipeline_jobs}
use radix_operator.PipelineJob.Status.Sync as Sync
use radix_operator.PipelineJob.Status.Sync.Kept.{sync_status-Kept}
use radix_operator.PipelineJob.History.ConfigMaps.{found}
use radix_operator.PipelineJob.OnSync as OnSync
use radix_operator.PipelineJob.OnSync.{
  Answers, World, stored, unless_error, reconcile, queue_job, sync_target_environments,
  promote_listed, set_next_job_to_waiting, stop_and_promote, sync_and_promote, queue_or_sync,
  handle_job_queueing, stop_or_queue, handle_stop, sync_with, by_application, on_sync,
}
use radix_operator.PipelineJob.OnSync.Keeps.{queue_job-Kept, queue_job-queued}
use radix_operator.PipelineJob.OnSync.Steps.{
  updated-condition, not_done_cases, Good, Reached, stored-Good, unless_error-Reached,
}

module _ (matches_pattern : String → String → Bool) (ra : RadixApplication) where
  module _ (random_string : String → String) (sort : List RadixJob → List RadixJob) (now : ℕ)
      (answers : Answers)
      (into : (jobs : List RadixJob) (k : RadixJob) → Memᴰ k jobs → Memᴰ k (sort jobs))
      (back : (jobs : List RadixJob) (k : RadixJob) → Memᴰ k (sort jobs) → Memᴰ k jobs) where
    sync_target_environments-Good :
        (w : World)
        → Good matches_pattern ra w
        → Good matches_pattern ra
            (sync_target_environments matches_pattern random_string sort now answers ra w)
    unfolding sync_target_environments updated
    sync_target_environments-Good w good = elim (Bool-cases (no_targets w.own.status.target_envs)) [
      | inr known ↦ rw known good
      | inl unknown ↦
          let change : RadixJobStatus → RadixJobStatus =
            λ s. record s { target_envs = get_target_environments matches_pattern w.own ra } in
          let kept = updated-Kept answers.update_targets change w.own in
          rw unknown (
            stored-Good matches_pattern ra (updated answers.update_targets change w.own) w kept good
              (λ h.
                touch w.own _ good.1 kept.same
                  (updated-condition answers.update_targets change w.own refl)))
    ]

    promote-Reached :
        (next_job : Option RadixJob) (update_error : Option String) (w : World)
        → next_job_to_waiting matches_pattern ra (sort w.jobs) ≡ next_job
        → Reached matches_pattern ra w
        → Reached matches_pattern ra
            (OnSync.promote matches_pattern random_string sort now answers next_job update_error w)
    unfolding OnSync.promote
    promote-Reached none u w e reach = reach
    promote-Reached (some job) (some e) w chosen reach = reach
    promote-Reached (some job) none w chosen reach =
        next reach (promote (sort w.jobs) job (into w.jobs) (back w.jobs) chosen)

    set_next_job_to_waiting-Reached :
        (w : World)
        → Reached matches_pattern ra w
        → Reached matches_pattern ra
            (set_next_job_to_waiting matches_pattern random_string sort now answers ra w)
    unfolding set_next_job_to_waiting
    set_next_job_to_waiting-Reached w reach = go answers.list_for_next
      where
        go :
            (e : Option String)
            → Reached matches_pattern ra
                (promote_listed matches_pattern random_string sort now answers e ra w)
        go none =
            promote-Reached (next_job_to_waiting matches_pattern ra (sort w.jobs))
              answers.update_next w refl reach
        go (some e) = reach

    stop_and_promote-Reached :
        (w : World)
        → Good matches_pattern ra w
        → Reached matches_pattern ra
            (stop_and_promote matches_pattern random_string sort now answers ra w)
    unfolding stop_and_promote
    stop_and_promote-Reached w good =
        let o =
          stop_job now (delete_pipeline_jobs answers.deletion w.own.name) answers.update_stopped
            w.own in
        let kept =
          stop_job-Kept now (delete_pipeline_jobs answers.deletion w.own.name)
            answers.update_stopped w.own in
        unless_error-Reached matches_pattern ra (stored o w).error (stored o w)
          (set_next_job_to_waiting matches_pattern random_string sort now answers ra)
          (stored-Good matches_pattern ra o w kept good (λ h.
            stop w.own o.radix_job good.1 kept.same (
              stop_job-stopped now (delete_pipeline_jobs answers.deletion w.own.name)
                answers.update_stopped w.own h)))
          (λ after. set_next_job_to_waiting-Reached (stored o w) after.0)

    -- The end of a reconciliation whose job may go on.
    sync_and_promote-Reached :
        (w : World)
        → Good matches_pattern ra w
        → ((job' : RadixJob)
            → Same w.own job'
            → Step matches_pattern ra w.jobs (replace_job job' w.jobs))
        → Reached matches_pattern ra
            (sync_and_promote matches_pattern random_string sort now answers ra w)
    unfolding sync_and_promote
    sync_and_promote-Reached w good may_go_on =
        let failure = reconcile answers.kube_job answers.config_map answers.create_job in
        let o = Sync.sync_status now failure answers.status random_string w.own in
        let kept = sync_status-Kept now failure answers.status w.own random_string in
        unless_error-Reached matches_pattern ra (stored o w).error (stored o w)
          (λ t.
            if is_done t.own.status.condition
            then set_next_job_to_waiting matches_pattern random_string sort now answers ra t
            else t)
          (stored-Good matches_pattern ra o w kept good (λ h. may_go_on o.radix_job kept.same))
          (λ after. elim (Bool-cases (is_done (stored o w).own.status.condition)) [
            | inl done ↦ rw done (set_next_job_to_waiting-Reached (stored o w) after.0)
            | inr open_job ↦ rw open_job after.0
          ])

    queue_or_sync-Reached :
        (e : Option String) (w : World)
        → Good matches_pattern ra w
        → is_queued_or_empty w.own.status.condition ≡ true
        → Reached matches_pattern ra
            (queue_or_sync matches_pattern random_string sort now answers e ra w)
    unfolding queue_or_sync
    queue_or_sync-Reached (some e) w good waits = good.0
    queue_or_sync-Reached none w good waits =
        elim (Bool-cases (must_queue matches_pattern ra w.own w.jobs)) [
          | inl must ↦
              let o = queue_job now answers.update_queued w.own in
              let kept = queue_job-Kept now answers.update_queued w.own in
              rw must
                (stored-Good matches_pattern ra o w kept good (λ h.
                  enqueue w.own o.radix_job good.1 kept.same must
                    (queue_job-queued now answers.update_queued w.own h))).0
          | inr free ↦ rw free (
              sync_and_promote-Reached w good
                (λ job' same. start w.own job' good.1 same waits free))
        ]

    handle_job_queueing-Reached :
        (w : World)
        → Good matches_pattern ra w
        → is_done w.own.status.condition ≡ false
        → Reached matches_pattern ra
            (handle_job_queueing matches_pattern random_string sort now answers ra w)
    unfolding handle_job_queueing
    handle_job_queueing-Reached w good open_job =
        elim (Bool-cases (is_queued_or_empty w.own.status.condition)) [
          | inl waits ↦ rw waits (queue_or_sync-Reached answers.list_for_queue w good waits)
          | inr started ↦ rw started (
              sync_and_promote-Reached w good (λ job' same.
                progress w.own job' good.1 same
                  (not_done_cases w.own.status.condition open_job started)))
        ]

    handle_stop-Reached :
        (w : World)
        → Good matches_pattern ra w
        → is_done w.own.status.condition ≡ false
        → Reached matches_pattern ra
            (handle_stop matches_pattern random_string sort now answers ra w)
    unfolding handle_stop
    handle_stop-Reached w good open_job = go w.own.spec.stop
      where
        go :
            (must_stop : Bool)
            → Reached matches_pattern ra
                (stop_or_queue matches_pattern random_string sort now answers must_stop ra w)
        go true = stop_and_promote-Reached w good
        go false = handle_job_queueing-Reached w good open_job

    sync_target_environments-condition :
        (w : World)
        → (sync_target_environments matches_pattern random_string sort now answers ra
            w).own.status.condition
          ≡ w.own.status.condition
    unfolding sync_target_environments stored
    sync_target_environments-condition w = elim (Bool-cases (no_targets w.own.status.target_envs)) [
      | inr known ↦ rw known refl
      | inl unknown ↦ rw unknown (
          updated-condition answers.update_targets
            (λ s. record s { target_envs = get_target_environments matches_pattern w.own ra }) w.own
            refl)
    ]

    sync_with-Reached :
        (w : World)
        → Good matches_pattern ra w
        → Reached matches_pattern ra (sync_with matches_pattern random_string sort now answers ra w)
    unfolding sync_with
    sync_with-Reached w good = elim (Bool-cases (is_done w.own.status.condition)) [
      | inl done ↦ rw done good.0
      | inr open_job ↦
          let t = sync_target_environments matches_pattern random_string sort now answers ra w in
          rw open_job (
            unless_error-Reached matches_pattern ra t.error t
              (handle_stop matches_pattern random_string sort now answers ra)
              (sync_target_environments-Good w good)
              (λ after.
                handle_stop-Reached t after
                  (ap is_done (sync_target_environments-condition w) ∙ open_job)))
    ]

    -- `OnSync` refines the steps of a namespace: if the stored jobs come from none by steps, then
    -- so do the stored jobs after a run of `OnSync` for one of them, whatever the API server
    -- answers, provided that it finds the application, that the syncer holds the job as it is
    -- stored, and that the sort only changes the order.
    pub on_sync-Reach :
        (own : RadixJob) (jobs : List RadixJob)
        → answers.application ≡ found ra
        → Memᴰ own jobs
        → Reach matches_pattern ra jobs
        → Reach matches_pattern ra
            (on_sync matches_pattern random_string sort now answers own jobs).jobs
    unfolding on_sync by_application
    on_sync-Reach own jobs has_application m reach =
        rw has_application
          (sync_with-Reached (record { own = own; jobs = jobs; error = none }) (reach, m))
