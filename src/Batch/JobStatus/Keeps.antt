-- ===== src/Batch/JobStatus/Keeps.antt =====
-- Rules on job statuses, over all statuses that `buildJobStatuses` makes.
use radix_operator.Prelude.{
  String, false, ◌≡◌, refl, Option, none, some, List, [], ◌∷◌, Memᴰ, ◌==◌, All, All_of_mem,
  find_first-some, Bool-cases, inl, inr,
}
use radix_operator.Batch.Types.{RadixBatchJob, RadixBatchJobStatus}
use radix_operator.Batch.Phases.{is_done_phase, is_job_status_done, find_status}
use radix_operator.Batch.JobStatus.{
  Observed, find_restarted, observed_status, start_status, by_current, build_job_statuses,
}

find_status-mem :
    (name : String) (statuses : List RadixBatchJobStatus) (c : RadixBatchJobStatus)
    → find_status name statuses ≡ some c
    → Memᴰ c statuses
unfolding find_status
find_status-mem name statuses c h = (find_first-some (λ s. s.name == name) statuses h).0

module _ (P : RadixBatchJobStatus → Type 0) (o : Observed)
    (computed : (job : RadixBatchJob) (current : Option RadixBatchJobStatus)
        (s : RadixBatchJobStatus)
      → is_done_phase s.phase ≡ false
      → s.end_time ≡ none
      → P (observed_status o job current s)) where
  by_current-keeps :
      (job : RadixBatchJob) (restarted : Option RadixBatchJob)
      (current : Option RadixBatchJobStatus)
      → ((c : RadixBatchJobStatus) → current ≡ some c → P c)
      → P (by_current o job restarted current)
  unfolding by_current start_status
  by_current-keeps job (some r) current h =
      computed job current (start_status job.name (some r) current) refl refl
  by_current-keeps job none none h = computed job none (start_status job.name none none) refl refl
  by_current-keeps job none (some c) h = elim (Bool-cases (is_job_status_done c)) [
    | inl done ↦ rw done (h c refl)
    | inr going ↦ rw going (computed job (some c) (start_status job.name none (some c)) going refl)
  ]

  pub build_job_statuses-keeps :
      (statuses : List RadixBatchJobStatus) (jobs : List RadixBatchJob)
      → All P statuses
      → All P (build_job_statuses o statuses jobs)
  unfolding build_job_statuses
  build_job_statuses-keeps statuses [] h = tt
  build_job_statuses-keeps statuses (job ∷ jobs) h = (
    by_current-keeps job (find_restarted job.name o.restarted_jobs) (find_status job.name statuses)
        (λ c found. All_of_mem P statuses h (find_status-mem job.name statuses c found)),
    build_job_statuses-keeps statuses jobs h,
  )
