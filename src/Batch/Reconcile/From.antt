-- ===== src/Batch/Reconcile/From.antt =====
-- Where the Kubernetes jobs of a batch come from, in the functions of pkg/apis/batch/kubejob.go and
-- syncer.go.
use radix_operator.Prelude.{
  ℕ, String, Bool, true, false, not, ◌||◌, ◌≡◌, refl, inl, inr, Option, none, some, List, [], ◌∷◌,
  ◌++◌, Memᴰ, ◌==◌, nat_beq, any, find_all, mem_find_all, mem-append_cases, Bool-cases,
}
use Prim.Native.Nat.{◌%◌}
use radix_operator.Kube.Job.{Job}
use radix_operator.Batch.Types.{RadixBatchJob}
use radix_operator.Batch.Phases.{
  has_value, is_batch_job_stop_requested, is_kube_job_for_batch_job, job_requires_restart,
  is_batch_job_done,
}
use radix_operator.Batch.Sync.{ReconcileError}
use radix_operator.Batch.Reconcile.{
  DeleteAnswer, deleted, not_found, failed, Answers, Syncer, fail, unless_returned, unless_failed,
  without_job, delete_answered, delete_jobs, new_job, create_job, restart_job, has_jobs,
  reconcile_kube_job, reconcile_service, sync_every_tenth, sync_observed,
}

-- The jobs with the label are among the allowed ones.
abbrev pub From : String → List Job → List Job → Type 0
From n allowed jobs = (k : Job) → Memᴰ k jobs → has_value k.batch_job_name n ≡ true → Memᴰ k allowed

-- `unless_returned` goes on exactly without an error.
pub unless_returned-none :
    (e : Option ReconcileError) (s : Syncer) (rest : Syncer → Syncer)
    → (unless_returned e s rest).error ≡ none
    → (e ≡ none) × ((rest s).error ≡ none) × (unless_returned e s rest ≡ rest s)
unfolding unless_returned
unless_returned-none none s rest h = (refl, h, refl)
unless_returned-none (some e) s rest h = cc

module _ (n : String) (allowed : List Job) where
  pub unless_returned-From :
      (e : Option ReconcileError) (s : Syncer) (rest : Syncer → Syncer)
      → From n allowed s.kube_jobs
      → From n allowed (rest s).kube_jobs
      → From n allowed (unless_returned e s rest).kube_jobs
  unfolding unless_returned
  unless_returned-From none s rest h k = k
  unless_returned-From (some e) s rest h k = h

  unless_failed-From :
      (e : Option String) (s : Syncer) (rest : Syncer → Syncer)
      → From n allowed s.kube_jobs
      → From n allowed (rest s).kube_jobs
      → From n allowed (unless_failed e s rest).kube_jobs
  unfolding unless_failed fail
  unless_failed-From none s rest h k = k
  unless_failed-From (some e) s rest h k = h

  without_job-From :
      (name : String) (jobs : List Job)
      → From n allowed jobs
      → From n allowed (without_job name jobs)
  unfolding without_job
  without_job-From name jobs h k m = h k (mem_find_all (λ j. not (j.name == name)) jobs m).0

  delete_answered-From :
      (a : DeleteAnswer) (k : Job) (s : Syncer)
      → From n allowed s.kube_jobs
      → From n allowed (delete_answered a k s).kube_jobs
  unfolding delete_answered fail
  delete_answered-From deleted k s h = without_job-From k.name s.kube_jobs h
  delete_answered-From not_found k s h = without_job-From k.name s.kube_jobs h
  delete_answered-From (failed e) k s h = h

  pub delete_jobs-From :
      (answers : Answers) (ks : List Job) (s : Syncer)
      → From n allowed s.kube_jobs
      → From n allowed (delete_jobs answers ks s).kube_jobs
  unfolding delete_jobs
  delete_jobs-From answers [] s h = h
  delete_jobs-From answers (k ∷ ks) s h =
      let t = delete_answered (answers.delete_job k.name) k s in
      let moved = delete_answered-From (answers.delete_job k.name) k s h in
      unless_returned-From t.error t (delete_jobs answers ks) moved
        (delete_jobs-From answers ks t moved)

  append-From :
      (jobs : List Job) (k : Job)
      → From n allowed jobs
      → has_value k.batch_job_name n ≡ false
      → From n allowed (jobs ++ k ∷ [])
  append-From jobs k h other j m label = elim (mem-append_cases jobs (k ∷ []) m) [
    | inl old ↦ h j old label
    | inr (Memᴰ.head e) ↦ let label' : has_value k.batch_job_name n ≡ true = rw (← e) label in cc
    | inr (Memᴰ.tail i) ↦ elim i [ ]
  ]

  create_job-From :
      (answers : Answers) (job : RadixBatchJob) (s : Syncer)
      → (job.name == n) ≡ false
      → From n allowed s.kube_jobs
      → From n allowed (create_job answers job s).kube_jobs
  unfolding create_job new_job
  create_job-From answers job s other h = unless_failed-From (answers.prepare job.name) s _ h (
      unless_failed-From (answers.create_job job.name) s _ h
        (append-From s.kube_jobs (new_job answers s.batch job) h other))

  restart_job-From :
      (answers : Answers) (own : List Job) (job : RadixBatchJob) (s : Syncer)
      → (job.name == n) ≡ false
      → From n allowed s.kube_jobs
      → From n allowed (restart_job answers own job s).kube_jobs
  unfolding restart_job
  restart_job-From answers own job s other h =
      let t = delete_jobs answers own (record s { restarted_jobs = job ∷ s.restarted_jobs }) in
      let moved =
        delete_jobs-From answers own (record s { restarted_jobs = job ∷ s.restarted_jobs }) h in
      unless_returned-From t.error t (create_job answers job) moved
        (create_job-From answers job t other moved)

  -- The reconciliation of another batch job adds no Kubernetes job with the label.
  pub reconcile_kube_job-From :
      (answers : Answers) (existing : List Job) (job : RadixBatchJob) (s : Syncer)
      → (job.name == n) ≡ false
      → From n allowed s.kube_jobs
      → From n allowed (reconcile_kube_job answers existing job s).kube_jobs
  unfolding reconcile_kube_job
  reconcile_kube_job-From answers existing job s other h =
      let own = find_all (is_kube_job_for_batch_job job) existing in
      elim (Bool-cases (is_batch_job_stop_requested job)) [
        | inl stop ↦ rw stop (delete_jobs-From answers own s h)
        | inr go_on ↦ elim (Bool-cases (job_requires_restart s.batch.status job)) [
          | inl restart ↦ rw go_on (rw restart (restart_job-From answers own job s other h))
          | inr plain ↦
              elim (Bool-cases
                (is_batch_job_done s.batch.status job.name || has_jobs answers own)) [
                  | inl idle ↦ rw go_on (rw plain (rw idle h))
                  | inr create ↦
                      rw go_on (rw plain (rw create (create_job-From answers job s other h)))
                ]
        ]
      ]

  pub reconcile_service-From :
      (answers : Answers) (has_ports : Bool) (existing : List String) (job : RadixBatchJob)
      (s : Syncer)
      → From n allowed s.kube_jobs
      → From n allowed (reconcile_service answers has_ports existing job s).kube_jobs
  unfolding reconcile_service
  reconcile_service-From answers has_ports existing job s h =
      let idle =
        not has_ports
        || is_batch_job_stop_requested job
        || is_batch_job_done s.batch.status job.name
        || any (λ name. name == job.name) existing in
      elim (Bool-cases idle) [
        | inl e ↦ rw e h
        | inr e ↦ rw e (unless_failed-From (answers.apply_service job.name) s _ h h)
      ]

  pub sync_every_tenth-From :
      (answers : Answers) (i : ℕ) (s : Syncer)
      → From n allowed s.kube_jobs
      → From n allowed (sync_every_tenth answers i s).kube_jobs
  unfolding sync_every_tenth sync_observed
  sync_every_tenth-From answers i s h = elim (Bool-cases (nat_beq (i % 10) 9)) [
    | inl e ↦ rw e h
    | inr e ↦ rw e h
  ]
