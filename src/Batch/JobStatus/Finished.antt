-- ===== src/Batch/JobStatus/Finished.antt =====
-- The statuses that `buildJobStatuses` of pkg/apis/batch/status.go makes of finished jobs.
use radix_operator.Prelude.{
  String, true, false, ◌≡◌, refl, sym, ap, ap₂, Option, none, some, List, [], ◌∷◌, map, Memᴰ, ◌==◌,
  beq_refl, find_first, find_first-some, all, any-false, mem-map, &&-true, arith, Distinct, ◌∙◌,
  eq_iff,
}
use radix_operator.Batch.Types.{RadixBatchJob, RadixBatchJobStatus}
use radix_operator.Batch.Phases.{is_job_status_done, find_status}
use radix_operator.Batch.JobStatus.{
  Observed, find_restarted, build_batch_job_status, build_job_statuses, by_current, observed_status,
  start_status,
}

observed_status-name :
    (o : Observed) (job : RadixBatchJob) (current : Option RadixBatchJobStatus)
    (s : RadixBatchJobStatus)
    → (observed_status o job current s).name ≡ s.name
unfolding observed_status
observed_status-name o job current s = ground arith

by_current-name :
    (o : Observed) (job : RadixBatchJob) (restarted : Option RadixBatchJob)
    (current : Option RadixBatchJobStatus)
    → ((c : RadixBatchJobStatus) → current ≡ some c → c.name ≡ job.name)
    → (by_current o job restarted current).name ≡ job.name
unfolding by_current start_status
by_current-name o job (some r) current h =
    observed_status-name o job current (start_status job.name (some r) current)
by_current-name o job none none h =
    observed_status-name o job none (start_status job.name none none)
by_current-name o job none (some c) h =
    ground (arith, h c, observed_status-name o job (some c) (start_status job.name none (some c)))

find_status-name :
    (name : String) (statuses : List RadixBatchJobStatus) (c : RadixBatchJobStatus)
    → find_status name statuses ≡ some c
    → c.name ≡ name
unfolding find_status
find_status-name name statuses c h =
    (eq_iff c.name name).0 (find_first-some (λ s. s.name == name) statuses h).1

-- Each batch job gets one status, in the order of the batch, under the job's name.
build_job_statuses-names :
    (o : Observed) (statuses : List RadixBatchJobStatus) (jobs : List RadixBatchJob)
    → map (λ s. s.name) (build_job_statuses o statuses jobs) ≡ map (λ j. j.name) jobs
unfolding build_job_statuses
build_job_statuses-names o statuses [] = refl
build_job_statuses-names o statuses (job ∷ jobs) =
    ap₂ ◌∷◌
      (by_current-name o job (find_restarted job.name o.restarted_jobs)
        (find_status job.name statuses) (find_status-name job.name statuses))
      (build_job_statuses-names o statuses jobs)

find_status_of_mem :
    (statuses : List RadixBatchJobStatus) (s : RadixBatchJobStatus)
    → Distinct (map (λ t. t.name) statuses)
    → Memᴰ s statuses
    → find_status s.name statuses ≡ some s
unfolding find_status
find_status_of_mem [] s d m = elim m [ ]
find_status_of_mem (t ∷ ts) s d (Memᴰ.head e) = rw (e, beq_refl)
find_status_of_mem (t ∷ ts) s d (Memᴰ.tail m) =
    let differs : (t.name == s.name) ≡ false =
      any-false (λ y. t.name == y) (map (λ u. u.name) ts) d.0 (mem-map (λ u. u.name) ts m) in
    rw differs (find_status_of_mem ts s d.1 m)

-- A job that is done and not restarted keeps its status.
by_current-done :
    (o : Observed) (job : RadixBatchJob) (c : RadixBatchJobStatus)
    → is_job_status_done c ≡ true
    → by_current o job none (some c) ≡ c
unfolding by_current
by_current-done o job c h = rw h

find_restarted-none :
    (o : Observed) (job : RadixBatchJob)
    → o.restarted_jobs ≡ []
    → find_restarted job.name o.restarted_jobs ≡ none
unfolding find_restarted
find_restarted-none o job e = ap (find_first (λ j. j.name == job.name)) e

build_batch_job_status-done :
    (o : Observed) (full : List RadixBatchJobStatus) (job : RadixBatchJob) (s : RadixBatchJobStatus)
    → o.restarted_jobs ≡ []
    → s.name ≡ job.name
    → find_status s.name full ≡ some s
    → is_job_status_done s ≡ true
    → build_batch_job_status o full job ≡ s
unfolding build_batch_job_status
build_batch_job_status-done o full job s no_restart same found done =
    ap₂ (by_current o job) (find_restarted-none o job no_restart)
      (ap (λ name. find_status name full) (sym same) ∙ found)
    ∙ by_current-done o job s done

build_job_statuses_of_found :
    (o : Observed) (full statuses : List RadixBatchJobStatus) (jobs : List RadixBatchJob)
    → o.restarted_jobs ≡ []
    → map (λ s. s.name) statuses ≡ map (λ j. j.name) jobs
    → ((s : RadixBatchJobStatus) → Memᴰ s statuses → find_status s.name full ≡ some s)
    → all is_job_status_done statuses ≡ true
    → build_job_statuses o full jobs ≡ statuses
unfolding build_job_statuses
build_job_statuses_of_found o full [] [] none_restarted names found done = refl
build_job_statuses_of_found o full [] (job ∷ jobs) none_restarted names found done = cc
build_job_statuses_of_found o full (s ∷ ss) [] none_restarted names found done = cc
build_job_statuses_of_found o full (s ∷ ss) (job ∷ jobs) none_restarted names found done =
    let parts = &&-true (is_job_status_done s) (all is_job_status_done ss) done in
    ap₂ ◌∷◌
      (build_batch_job_status-done o full job s none_restarted (cc) (found s (Memᴰ.head refl))
        parts.0)
      (build_job_statuses_of_found o full ss jobs none_restarted (cc) (λ t m. found t (Memᴰ.tail m))
        parts.1)

-- A batch whose jobs are all done is settled: with one status for each job, under distinct names,
-- and no job restarted, a sync computes the same statuses again, whatever the time, the
-- Kubernetes jobs, the pods and the requests to stop are.
pub build_job_statuses-settled :
    (o : Observed) (statuses : List RadixBatchJobStatus) (jobs : List RadixBatchJob)
    → o.restarted_jobs ≡ []
    → map (λ s. s.name) statuses ≡ map (λ j. j.name) jobs
    → Distinct (map (λ s. s.name) statuses)
    → all is_job_status_done statuses ≡ true
    → build_job_statuses o statuses jobs ≡ statuses
build_job_statuses-settled o statuses jobs none_restarted names distinct done =
    build_job_statuses_of_found o statuses statuses jobs none_restarted names
      (λ s m. find_status_of_mem statuses s distinct m) done
