-- ===== src/PipelineJob/Queue/Exclusion.antt =====
-- Which pipeline jobs of an application run at a time: the jobs of a
-- namespace as a transition system, whose steps take the decisions of `PipelineJob.Queue`.
use radix_operator.Prelude.{
  String, Bool, true, false, ◌≡◌, refl, some, List, [], ◌∷◌, ◌++◌, map, Memᴰ, ◌⊎◌, inl, inr, ◌==◌,
  beq_comm, eq_iff, any-false, mem_of_mem-map, mem-append_cases, if◌then◌else◌, arith, Bool-cases,
}
use radix_operator.PipelineJob.Types.{
  unset, queued, waiting, stopped, is_queued_or_empty, is_waiting_or_running, RadixJob,
  RadixApplication,
}
use radix_operator.PipelineJob.Targets.{has_key, no_targets, get_target_environments}
use radix_operator.PipelineJob.Targets.Conflict.{
  conflict_comm, conflict_no_targets, apart_of_no_conflict,
}
use radix_operator.PipelineJob.Queue.Decisions.{must_queue_clear, next_job_clear}
use radix_operator.PipelineJob.Queue.{
  target_conflict, blocks, is_other_job_running_on_branch_or_environment, must_queue,
  next_job_to_waiting, set_condition,
}

-- `UpdateStatus` of a job: the job of its name is replaced.
unfoldable pub replace_job : RadixJob → List RadixJob → List RadixJob
replace_job job = map (λ k. if k.name == job.name then job else k)

-- The same job, whatever its status.
pub record Same (job job' : RadixJob) : Type 0 where
  pub same_name : job'.name ≡ job.name
  pub same_spec : job'.spec ≡ job.spec

module _ (matches_pattern : String → String → Bool) (ra : RadixApplication) where
  -- An update of the status of a job in a namespace, or an action of a user.
  pub data Step (jobs : List RadixJob) : List RadixJob → Type 0 where
    -- A user creates a job.
    submit : (job : RadixJob) → job.status.condition ≡ unset → Step jobs (jobs ++ job ∷ [])
    -- An update that leaves the condition as it is, as that of `syncTargetEnvironments`.
    touch :
        (job job' : RadixJob)
        → Memᴰ job jobs
        → Same job job'
        → job'.status.condition ≡ job.status.condition
        → Step jobs (replace_job job' jobs)
    -- `handleJobQueueing` queues the job.
    enqueue :
        (job job' : RadixJob)
        → Memᴰ job jobs
        → Same job job'
        → must_queue matches_pattern ra job jobs ≡ true
        → job'.status.condition ≡ queued
        → Step jobs (replace_job job' jobs)
    -- `handleJobQueueing` lets a job go on, and `syncStatus` gives it the condition of its
    -- Kubernetes job.
    start :
        (job job' : RadixJob)
        → Memᴰ job jobs
        → Same job job'
        → is_queued_or_empty job.status.condition ≡ true
        → must_queue matches_pattern ra job jobs ≡ false
        → Step jobs (replace_job job' jobs)
    -- `syncStatus` of a job that has started.
    progress :
        (job job' : RadixJob)
        → Memᴰ job jobs
        → Same job job'
        → is_waiting_or_running job.status.condition ≡ true
        → Step jobs (replace_job job' jobs)
    -- `stopJob`
    stop :
        (job job' : RadixJob)
        → Memᴰ job jobs
        → Same job job'
        → job'.status.condition ≡ stopped
        → Step jobs (replace_job job' jobs)
    -- `setNextJobToWaiting`, over the jobs in some order
    promote :
        (sorted : List RadixJob) (job : RadixJob)
        → ((k : RadixJob) → Memᴰ k jobs → Memᴰ k sorted)
        → ((k : RadixJob) → Memᴰ k sorted → Memᴰ k jobs)
        → next_job_to_waiting matches_pattern ra sorted ≡ some job
        → Step jobs (replace_job (set_condition waiting job) jobs)

  pub data Reach : List RadixJob → Type 0 where
    empty : Reach []
    next : {jobs jobs' : List RadixJob} → Reach jobs → Step jobs jobs' → Reach jobs'

  -- Two jobs that wait for their pods or run share no environment.
  abbrev pub Exclusive : List RadixJob → Type 0
  Exclusive jobs =
      (a b : RadixJob)
      → Memᴰ a jobs
      → Memᴰ b jobs
      → (a.name == b.name) ≡ false
      → is_waiting_or_running a.status.condition ≡ true
      → is_waiting_or_running b.status.condition ≡ true
      → target_conflict matches_pattern ra a b ≡ false

  -- The others that run leave a job's environments alone.
  abbrev Undisturbed : RadixJob → List RadixJob → Type 0
  Undisturbed job jobs =
      (k : RadixJob)
      → Memᴰ k jobs
      → (k.name == job.name) ≡ false
      → is_waiting_or_running k.status.condition ≡ true
      → target_conflict matches_pattern ra job k ≡ false

  replace_cases :
      (job : RadixJob) (jobs : List RadixJob) {a : RadixJob}
      → Memᴰ a (replace_job job jobs)
      → (a ≡ job) ⊎ (Memᴰ a jobs × ((a.name == job.name) ≡ false))
  unfolding replace_job
  replace_cases job jobs {a} m =
      let (k, in_jobs, e) = mem_of_mem-map (λ k. if k.name == job.name then job else k) jobs m in
      pick k in_jobs e
    where
      pick :
          (k : RadixJob)
          → Memᴰ k jobs
          → a ≡ (if k.name == job.name then job else k)
          → (a ≡ job) ⊎ (Memᴰ a jobs × ((a.name == job.name) ≡ false))
      pick k in_jobs e = elim (Bool-cases (k.name == job.name)) [
        | inl same ↦ inl (rw same at e)
        | inr other ↦ let e' : a ≡ k = rw other at e in inr (rw e' in_jobs, rw e' other)
      ]

  replace_job-Exclusive :
      (job : RadixJob) (jobs : List RadixJob)
      → Exclusive jobs
      → (is_waiting_or_running job.status.condition ≡ true → Undisturbed job jobs)
      → Exclusive (replace_job job jobs)
  replace_job-Exclusive job jobs ex free a b in_a in_b differ on_a on_b =
      elim (replace_cases job jobs in_a) [
        | inl a_job ↦ elim (replace_cases job jobs in_b) [
          | inl b_job ↦
              let same : a.name ≡ b.name = cc in let t = (eq_iff a.name b.name).1 same in cc
          | inr old_b ↦
              rw a_job
                (free (rw a_job at on_a) b old_b.0 (rw a_job at (rw beq_comm at differ)) on_b)
        ]
        | inr old_a ↦ elim (replace_cases job jobs in_b) [
          | inl b_job ↦ rw (b_job, conflict_comm) (free (rw b_job at on_b) a old_a.0 old_a.1 on_a)
          | inr old_b ↦ ex a b old_a.0 old_b.0 differ on_a on_b
        ]
      ]

  -- A job that no other blocks shares no environment with one that runs.
  free_of_unblocked :
      (job : RadixJob) (jobs : List RadixJob)
      → is_other_job_running_on_branch_or_environment matches_pattern ra job jobs ≡ false
      → Undisturbed job jobs
  unfolding is_other_job_running_on_branch_or_environment
  free_of_unblocked job jobs h k m differ on =
      let clear = any-false (blocks matches_pattern ra job) jobs h m in
      elim (Bool-cases (no_targets (get_target_environments matches_pattern job ra))) [
        | inl none_targeted ↦ conflict_no_targets _ _ none_targeted
        | inr some_env ↦ ground arith
      ]

  -- A new job has not started.
  submit-Exclusive :
      (job : RadixJob) (jobs : List RadixJob)
      → is_waiting_or_running job.status.condition ≡ false
      → Exclusive jobs
      → Exclusive (jobs ++ job ∷ [])
  submit-Exclusive job jobs off ex a b in_a in_b differ on_a on_b =
      ex a b (started a in_a on_a) (started b in_b on_b) differ on_a on_b
    where
      started :
          (k : RadixJob)
          → Memᴰ k (jobs ++ job ∷ [])
          → is_waiting_or_running k.status.condition ≡ true
          → Memᴰ k jobs
      started k m on = elim (mem-append_cases jobs (job ∷ []) m) [
        | inl old ↦ old
        | inr (Memᴰ.head e) ↦
            let on' : is_waiting_or_running job.status.condition ≡ true = rw e at on in cc
        | inr (Memᴰ.tail none_left) ↦ elim none_left [ ]
      ]

  Same-targets :
      (job job' : RadixJob)
      → Same job job'
      → get_target_environments matches_pattern job' ra
        ≡ get_target_environments matches_pattern job ra
  unfolding get_target_environments
  Same-targets job job' same = rw same.same_spec refl

  -- What holds of a job holds of the same job with another status.
  same-Undisturbed :
      (job job' : RadixJob) (jobs : List RadixJob)
      → Same job job'
      → Undisturbed job jobs
      → Undisturbed job' jobs
  same-Undisturbed job job' jobs same free k m differ on =
      rw (Same-targets job job' same) (free k m (rw same.same_name at differ) on)

  replaced-Exclusive :
      (job job' : RadixJob) (jobs : List RadixJob)
      → Same job job'
      → Exclusive jobs
      → (is_waiting_or_running job'.status.condition ≡ true → Undisturbed job jobs)
      → Exclusive (replace_job job' jobs)
  replaced-Exclusive job job' jobs same ex free =
      replace_job-Exclusive job' jobs ex (λ on. same-Undisturbed job job' jobs same (free on))

  -- Every step keeps the exclusion.
  pub Step-Exclusive :
      {jobs jobs' : List RadixJob} → Step jobs jobs' → Exclusive jobs → Exclusive jobs'
  Step-Exclusive {jobs} (submit job e) ex = submit-Exclusive job jobs (rw e) ex
  Step-Exclusive {jobs} (touch job job' m same e) ex =
      replaced-Exclusive job job' jobs same ex
        (λ on k mk differ on_k. ex job k m mk (rw beq_comm differ) (rw e at on) on_k)
  Step-Exclusive {jobs} (enqueue job job' m same h e) ex =
      replaced-Exclusive job job' jobs same ex (λ on. absurd (ground arith))
  Step-Exclusive {jobs} (start job job' m same q h) ex =
      replaced-Exclusive job job' jobs same ex
        (λ on. free_of_unblocked job jobs (must_queue_clear matches_pattern ra job jobs q h).1)
  Step-Exclusive {jobs} (progress job job' m same r) ex =
      replaced-Exclusive job job' jobs same ex
        (λ on k mk differ on_k. ex job k m mk (rw beq_comm differ) r on_k)
  Step-Exclusive {jobs} (stop job job' m same e) ex =
      replaced-Exclusive job job' jobs same ex (λ on. absurd (ground arith))
  Step-Exclusive {jobs} (promote sorted job into back h) ex =
      replaced-Exclusive job (set_condition waiting job) jobs
        (record { same_name = refl; same_spec = refl }) ex
        (λ on k mk.
          free_of_unblocked job sorted (next_job_clear matches_pattern ra sorted h).2 k (into k mk))

  Reach-Exclusive : {jobs : List RadixJob} → Reach jobs → Exclusive jobs
  Reach-Exclusive empty = λ a b in_a. elim in_a [ ]
  Reach-Exclusive (next r st) = Step-Exclusive st (Reach-Exclusive r)

  -- In every state that a namespace comes to by creating, queueing, starting, following,
  -- stopping and promoting jobs, while the application's environments stay the same, two jobs of
  -- different names that both wait or run have no target environment in common.
  pub running_jobs_exclusive :
      {jobs : List RadixJob}
      → Reach jobs
      → (a b : RadixJob) → Memᴰ a jobs
      → Memᴰ b jobs
      → (a.name == b.name) ≡ false
      → is_waiting_or_running a.status.condition ≡ true
      → is_waiting_or_running b.status.condition ≡ true
      → (e : String) → has_key (get_target_environments matches_pattern a ra) e ≡ true
      → has_key (get_target_environments matches_pattern b ra) e ≡ false
  running_jobs_exclusive r a b in_a in_b differ on_a on_b e has =
      apart_of_no_conflict _ _ e (Reach-Exclusive r a b in_a in_b differ on_a on_b) has
