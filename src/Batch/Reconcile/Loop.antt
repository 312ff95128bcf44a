-- ===== src/Batch/Reconcile/Loop.antt =====
-- The loop over the batch jobs in `reconcile` of pkg/apis/batch/syncer.go.
use radix_operator.Prelude.{
  ℕ, suc, String, Bool, true, false, ◌≡◌, refl, ap, sym, ◌∙◌, Option, none, some, List, [], ◌∷◌,
  map, Memᴰ, ◌==◌, any, any-false, mem-map, mem_of_any, Distinct, beq_comm, arith, subst, inl, inr,
  Bool-cases,
}
use radix_operator.Kube.Job.{Job}
use radix_operator.Batch.Types.{RadixBatchJob}
use radix_operator.Batch.Phases.{is_batch_job_stop_requested, is_kube_job_for_batch_job}
use radix_operator.Batch.Reconcile.{
  Answers, Syncer, unless_failed, fail, reconcile_kube_job, reconcile_service, sync_every_tenth,
  reconcile_jobs, reconcile, deployment_error, has_ports_of,
}
use radix_operator.Batch.Reconcile.From.{
  From, unless_returned-none, unless_returned-From, reconcile_kube_job-From, reconcile_service-From,
  sync_every_tenth-From,
}
use radix_operator.Batch.Reconcile.Stopped.{stop-From}

module _ (answers : Answers) (has_ports : Bool) (existing : List Job) (services : List String) where
  -- The loop over other batch jobs adds no Kubernetes job with the label.
  reconcile_jobs-From :
      (n : String) (allowed : List Job) (i : ℕ) (jobs : List RadixBatchJob) (s : Syncer)
      → any (λ y. n == y) (map (λ j. j.name) jobs) ≡ false
      → From n allowed s.kube_jobs
      → From n allowed (reconcile_jobs answers has_ports existing services i jobs s).kube_jobs
  unfolding reconcile_jobs
  reconcile_jobs-From n allowed i [] s others h = h
  reconcile_jobs-From n allowed i (job ∷ jobs) s others h =
      let other : (job.name == n) ≡ false = let c = beq_comm n job.name in ground arith in
      let rest : any (λ y. n == y) (map (λ j. j.name) jobs) ≡ false = ground arith in
      let t = reconcile_service answers has_ports services job s in
      let ht = reconcile_service-From n allowed answers has_ports services job s h in
      let u = reconcile_kube_job answers existing job t in
      let hu = reconcile_kube_job-From n allowed answers existing job t other ht in
      let v = sync_every_tenth answers i u in
      let hv = sync_every_tenth-From n allowed answers i u hu in
      unless_returned-From n allowed t.error t _ ht (
        unless_returned-From n allowed u.error u _ hu (
          unless_returned-From n allowed v.error v _ hv
            (reconcile_jobs-From n allowed (suc i) jobs v rest hv)))

  -- Each batch job that must stop has no Kubernetes job after the loop.
  reconcile_jobs-stops :
      (i : ℕ) (jobs : List RadixBatchJob) (s : Syncer)
      → Distinct (map (λ j. j.name) jobs)
      → ((j : RadixBatchJob) → Memᴰ j jobs → From j.name existing s.kube_jobs)
      → (reconcile_jobs answers has_ports existing services i jobs s).error ≡ none
      → (j : RadixBatchJob) → Memᴰ j jobs
      → is_batch_job_stop_requested j ≡ true
      → From j.name [] (reconcile_jobs answers has_ports existing services i jobs s).kube_jobs
  unfolding reconcile_jobs
  reconcile_jobs-stops i [] s names listed fine j m stop = elim m [ ]
  reconcile_jobs-stops i (job ∷ jobs) s names listed fine j m stop =
      let t = reconcile_service answers has_ports services job s in
      let u = reconcile_kube_job answers existing job t in
      let v = sync_every_tenth answers i u in
      let loop = reconcile_jobs answers has_ports existing services (suc i) jobs in
      let (ft, rt, et) = unless_returned-none t.error t _ fine in
      let (fu, ru, eu) = unless_returned-none u.error u _ rt in
      let (fv, rv, ev) = unless_returned-none v.error v loop ru in
      let same = et ∙ eu ∙ ev in
      subst (λ r. From j.name [] r.kube_jobs) (sym same)
        (elim m [
          | Memᴰ.head e ↦
              let must_stop : is_batch_job_stop_requested job ≡ true = rw (← e) stop in
              let ht =
                reconcile_service-From job.name existing answers has_ports services job s
                  (listed job (Memᴰ.head refl)) in
              let hu = stop-From answers existing job t must_stop fu ht in
              let hv = sync_every_tenth-From job.name [] answers i u hu in
              rw e (reconcile_jobs-From job.name [] (suc i) jobs v names.0 hv)
          | Memᴰ.tail k ↦
              reconcile_jobs-stops (suc i) jobs v names.1
                (λ q mq.
                  let other =
                    any-false (λ y. job.name == y) (map (λ r. r.name) jobs) names.0
                      (mem-map (λ r. r.name) jobs mq) in
                  sync_every_tenth-From q.name existing answers i u (
                    reconcile_kube_job-From q.name existing answers existing job t other (
                      reconcile_service-From q.name existing answers has_ports services job s
                        (listed q (Memᴰ.tail mq)))))
                rv j k stop
        ])

unless_failed-none :
    (e : Option String) (s : Syncer) (rest : Syncer → Syncer)
    → (unless_failed e s rest).error ≡ none
    → unless_failed e s rest ≡ rest s
unfolding unless_failed fail
unless_failed-none none s rest h = refl
unless_failed-none (some e) s rest h = cc

-- If a reconciliation returns no error and the names of the batch jobs are different, then no
-- Kubernetes job is left that is labelled with a batch job for which a stop is requested, whatever
-- the syncs of the status in between find.
pub reconcile-stops :
    (answers : Answers) (rd job_name : String) (s : Syncer) (job : RadixBatchJob)
    → Distinct (map (λ j. j.name) s.batch.jobs)
    → (reconcile answers rd job_name s).error ≡ none
    → Memᴰ job s.batch.jobs
    → is_batch_job_stop_requested job ≡ true
    → any (is_kube_job_for_batch_job job) (reconcile answers rd job_name s).kube_jobs ≡ false
unfolding reconcile is_kube_job_for_batch_job
reconcile-stops answers rd name s job names fine m stop =
    let (_, fine1, same1) =
      unless_returned-none (deployment_error answers.deployment rd name) s _ fine in
    let same2 = unless_failed-none answers.list_jobs s _ fine1 in
    let ports = has_ports_of answers.deployment in
    let loop : Syncer → Syncer =
      λ r. reconcile_jobs answers ports r.kube_jobs r.services 0 r.batch.jobs r in
    let fine2 = ap (λ r. r.error) (sym same2) ∙ fine1 in
    let same3 = unless_failed-none answers.list_services s loop fine2 in
    let same = same1 ∙ same2 ∙ same3 in
    let fine3 : (loop s).error ≡ none = ap (λ r. r.error) (sym same) ∙ fine in
    let none_left =
      reconcile_jobs-stops answers ports s.kube_jobs s.services 0 s.batch.jobs s names
        (λ j i k l label. l) fine3 job m stop in
    let over : any (is_kube_job_for_batch_job job) (loop s).kube_jobs ≡ false =
      elim (Bool-cases (any (is_kube_job_for_batch_job job) (loop s).kube_jobs)) [
        | inr e ↦ e
        | inl e ↦
            let (k, l, label) = mem_of_any (is_kube_job_for_batch_job job) (loop s).kube_jobs e in
            elim (none_left k l label) [ ]
      ] in
    subst (λ r. any (is_kube_job_for_batch_job job) r.kube_jobs ≡ false) (sym same) over
