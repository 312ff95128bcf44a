-- ===== src/PipelineJob/OnSync/Steps.antt =====
-- The stored jobs after the updates of a status in pkg/apis/job/job.go.
use radix_operator.Prelude.{
  String, Bool, true, false, ◌≡◌, refl, inl, inr, Option, none, some, List, Memᴰ, ◌==◌, beq_refl,
  mem-map, arith, Bool-cases, if◌then◌else◌,
}
use radix_operator.PipelineJob.Types.{
  RadixJobCondition, is_done, is_queued_or_empty, is_waiting_or_running, RadixJobStatus, RadixJob,
  RadixApplication,
}
use radix_operator.PipelineJob.Queue.Exclusion.{replace_job, Step, Reach, next}
use radix_operator.PipelineJob.Status.{Outcome, updated}
use radix_operator.PipelineJob.Status.Kept.{Kept}
use radix_operator.PipelineJob.OnSync.{World, stored, unless_error}

pub updated-condition :
    (answer : Option String) (change : RadixJobStatus → RadixJobStatus) (rj : RadixJob)
    → (change rj.status).condition ≡ rj.status.condition
    → (updated answer change rj).radix_job.status.condition ≡ rj.status.condition
unfolding updated
updated-condition (some e) change rj h = refl
updated-condition none change rj h = h

pub mem-replace_job :
    (job job' : RadixJob) (jobs : List RadixJob)
    → job'.name ≡ job.name
    → Memᴰ job jobs
    → Memᴰ job' (replace_job job' jobs)
unfolding replace_job
mem-replace_job job job' jobs same m =
    let moved : Memᴰ (if job.name == job'.name then job' else job) (replace_job job' jobs) =
      mem-map (λ k. if k.name == job'.name then job' else k) jobs m in
    let e : (job.name == job'.name) ≡ true = rw same (beq_refl job.name) in rw e at moved

pub not_done_cases :
    (c : RadixJobCondition)
    → is_done c ≡ false
    → is_queued_or_empty c ≡ false
    → is_waiting_or_running c ≡ true
not_done_cases c h k = ground arith

module _ (matches_pattern : String → String → Bool) (ra : RadixApplication) where
  -- The store is reached by steps, and has the syncer's job.
  abbrev pub Good : World → Type 0
  Good w = Reach matches_pattern ra w.jobs × Memᴰ w.own w.jobs

  pub stored-Good :
      (o : Outcome) (w : World)
      → Kept w.own o
      → Good w
      → (o.is_stored ≡ true → Step matches_pattern ra w.jobs (replace_job o.radix_job w.jobs))
      → Good (stored o w)
  unfolding stored
  stored-Good o w kept (reach, m) step = elim (Bool-cases o.is_stored) [
    | inl yes_stored ↦ rw yes_stored (
      next reach (step yes_stored),
      mem-replace_job w.own o.radix_job w.jobs kept.same.same_name m,
    )
    | inr unstored ↦ rw unstored (reach, rw (kept.unchanged unstored) m)
  ]

  abbrev pub Reached : World → Type 0
  Reached w = Reach matches_pattern ra w.jobs

  pub unless_error-Reached :
      (e : Option String) (w : World) (rest : World → World)
      → Good w
      → (Good w → Reached (rest w))
      → Reached (unless_error e w rest)
  unfolding unless_error
  unless_error-Reached none w rest good after = after good
  unless_error-Reached (some e) w rest good after = good.0
