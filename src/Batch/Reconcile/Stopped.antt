-- ===== src/Batch/Reconcile/Stopped.antt =====
-- The batch jobs that are stopped, in the reconciliation of pkg/apis/batch/syncer.go.
use radix_operator.Prelude.{
  String, true, false, not, ◌≡◌, sym, Option, none, some, List, [], ◌∷◌, Memᴰ, ◌==◌, find_all,
  mem_find_all, find_all_of_mem, beq_refl, arith, subst,
}
use radix_operator.Kube.Job.{Job}
use radix_operator.Batch.Types.{RadixBatchJob}
use radix_operator.Batch.Phases.{is_batch_job_stop_requested, is_kube_job_for_batch_job}
use radix_operator.Batch.Sync.{ReconcileError}
use radix_operator.Batch.Reconcile.{
  DeleteAnswer, deleted, not_found, failed, Answers, Syncer, unless_returned, fail, without_job,
  delete_answered, delete_jobs, reconcile_kube_job,
}
use radix_operator.Batch.Reconcile.From.{From, unless_returned-none, delete_jobs-From}

-- No job has the name.
abbrev Without : String → List Job → Type 0
Without name jobs = (k : Job) → Memᴰ k jobs → (k.name == name) ≡ false

without_job-Without : (name : String) (jobs : List Job) → Without name (without_job name jobs)
unfolding without_job
without_job-Without name jobs k m =
    let passed = (mem_find_all (λ j. not (j.name == name)) jobs m).1 in ground arith

delete_answered-Without :
    (a : DeleteAnswer) (k : Job) (s : Syncer)
    → (delete_answered a k s).error ≡ none
    → Without k.name (delete_answered a k s).kube_jobs
unfolding delete_answered fail
delete_answered-Without deleted k s h = without_job-Without k.name s.kube_jobs
delete_answered-Without not_found k s h = without_job-Without k.name s.kube_jobs
delete_answered-Without (failed e) k s h = cc

without_job-keeps :
    (name gone : String) (jobs : List Job)
    → Without name jobs
    → Without name (without_job gone jobs)
unfolding without_job
without_job-keeps name gone jobs h k m = h k (mem_find_all (λ j. not (j.name == gone)) jobs m).0

delete_answered-keeps :
    (name : String) (a : DeleteAnswer) (k : Job) (s : Syncer)
    → Without name s.kube_jobs
    → Without name (delete_answered a k s).kube_jobs
unfolding delete_answered fail
delete_answered-keeps name deleted k s h = without_job-keeps name k.name s.kube_jobs h
delete_answered-keeps name not_found k s h = without_job-keeps name k.name s.kube_jobs h
delete_answered-keeps name (failed e) k s h = h

delete_jobs-keeps :
    (answers : Answers) (name : String) (ks : List Job) (s : Syncer)
    → Without name s.kube_jobs
    → Without name (delete_jobs answers ks s).kube_jobs
unfolding delete_jobs unless_returned
delete_jobs-keeps answers name [] s h = h
delete_jobs-keeps answers name (k ∷ ks) s h =
    let t = delete_answered (answers.delete_job k.name) k s in
    let moved = delete_answered-keeps name (answers.delete_job k.name) k s h in
    go t.error t moved (delete_jobs-keeps answers name ks t moved)
  where
    go :
        (e : Option ReconcileError) (t : Syncer)
        → Without name t.kube_jobs
        → Without name (delete_jobs answers ks t).kube_jobs
        → Without name (unless_returned e t (delete_jobs answers ks)).kube_jobs
    go none t a b = b
    go (some e) t a b = a

-- Without an error the names of all the jobs are gone.
delete_jobs-Without :
    (answers : Answers) (ks : List Job) (s : Syncer)
    → (delete_jobs answers ks s).error ≡ none
    → (k : Job) → Memᴰ k ks
    → Without k.name (delete_jobs answers ks s).kube_jobs
unfolding delete_jobs
delete_jobs-Without answers [] s h k m = elim m [ ]
delete_jobs-Without answers (j ∷ ks) s h k m =
    let t = delete_answered (answers.delete_job j.name) j s in
    let (fine, rest, same) = unless_returned-none t.error t (delete_jobs answers ks) h in
    let first =
      delete_jobs-keeps answers j.name ks t
        (delete_answered-Without (answers.delete_job j.name) j s fine) in
    let later = delete_jobs-Without answers ks t rest in
    subst (λ r. Without k.name r.kube_jobs) (sym same)
      (elim m [ Memᴰ.head e ↦ rw e first | Memᴰ.tail i ↦ later k i ])

-- If the jobs with the label were listed, then a stop leaves none.
pub stop-From :
    (answers : Answers) (existing : List Job) (job : RadixBatchJob) (s : Syncer)
    → is_batch_job_stop_requested job ≡ true
    → (reconcile_kube_job answers existing job s).error ≡ none
    → From job.name existing s.kube_jobs
    → From job.name [] (reconcile_kube_job answers existing job s).kube_jobs
unfolding reconcile_kube_job is_kube_job_for_batch_job
stop-From answers existing job s stop h listed =
    let own = find_all (is_kube_job_for_batch_job job) existing in
    let h' : (delete_jobs answers own s).error ≡ none = rw stop at h in
    rw stop (λ k m label.
      let i = delete_jobs-From job.name existing answers own s listed k m label in
      let gone =
        delete_jobs-Without answers own s h' k
          (find_all_of_mem (is_kube_job_for_batch_job job) existing i label) k m in
      let same = beq_refl k.name in cc)
