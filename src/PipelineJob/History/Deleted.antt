-- ===== src/PipelineJob/History/Deleted.antt =====
-- The pipeline jobs that `getRadixJobsToGarbageCollect` of pkg/apis/job/job_history.go deletes.
use radix_operator.Prelude.{
  ℕ, zero, suc, ◌<◌, String, true, false, not, ◌≡◌, refl, inl, inr, List, [], ◌∷◌, Memᴰ, ◌==◌,
  beq_refl, any, any_of_mem, mem_find_all, drop, mem-drop, length, mem-append_cases, arith,
  Bool-cases,
}
use radix_operator.PipelineJob.Types.{RadixJobCondition, RadixJob, RadixApplication}
use radix_operator.PipelineJob.History.{
  job_is_completed, is_succeeded, get_radix_job_envs, Bucket, has_deployment, is_explicitly_deleted,
  get_radix_job_candidates_for_deletion, beyond_limit,
  get_radix_jobs_to_garbage_collect_by_job_conditions_and_envs, get_radix_jobs_to_garbage_collect,
}
use radix_operator.PipelineJob.History.Buckets.{bucket_has_job}
use radix_operator.PipelineJob.History.Collected.{Counted, candidates-Sound}

succeeded_is_completed : (c : RadixJobCondition) → is_succeeded c ≡ true → job_is_completed c ≡ true
succeeded_is_completed c h = ground arith

length-drop : (n : ℕ) (xs : List RadixJob) {x : RadixJob} → Memᴰ x (drop n xs) → n < length xs
length-drop zero [] m = elim m [ ]
length-drop zero (x ∷ xs) m = omega arith
length-drop (suc n) [] m = elim m [ ]
length-drop (suc n) (x ∷ xs) m = let ih = length-drop n xs m in omega arith

module _ (sort : List RadixJob → List RadixJob) (limit : ℕ) (names : List String) where
  -- A job beyond the limit comes from a bucket.
  mem_by_conditions :
      (j : RadixJob) (buckets : List Bucket)
      → Memᴰ j
          (get_radix_jobs_to_garbage_collect_by_job_conditions_and_envs sort limit names buckets)
      → (b : Bucket) × Memᴰ b buckets
        × Memᴰ j (drop limit (sort b.jobs))
        × (any (λ name. name == j.name) names ≡ false)
  unfolding get_radix_jobs_to_garbage_collect_by_job_conditions_and_envs beyond_limit
  mem_by_conditions j [] m = elim m [ ]
  mem_by_conditions j (b ∷ bs) m =
      elim (mem-append_cases (beyond_limit sort limit names b)
        (get_radix_jobs_to_garbage_collect_by_job_conditions_and_envs sort limit names bs) m) [
          | inl here ↦
              let found =
                mem_find_all (λ rj. not (any (λ name. name == rj.name) names))
                  (drop limit (sort b.jobs)) here in
              (b, Memᴰ.head refl, found.0, ground (arith, found.1))
          | inr there ↦
              let (c, in_bs, old, free) = mem_by_conditions j bs there in
              (c, Memᴰ.tail in_bs, old, free)
        ]

module _ (names_with_rds : List String) (ra : RadixApplication) (now period : ℕ) where
  at_once_is_completed :
      (j : RadixJob)
      → is_explicitly_deleted names_with_rds ra now period j ≡ true
      → job_is_completed j.status.condition ≡ true
  unfolding is_explicitly_deleted
  at_once_is_completed j h = ground (arith, succeeded_is_completed j.status.condition)

  -- A job that is not recorded as one with a deployment has none.
  no_deployment_recorded :
      (all_jobs : List RadixJob) (names : List String) (condition : RadixJobCondition)
      (env : String) (j : RadixJob)
      → Counted names_with_rds ra now period all_jobs names condition env j
      → any (λ name. name == j.name) names ≡ false
      → has_deployment names_with_rds ra now period j ≡ false
  no_deployment_recorded all_jobs names condition env j counted free =
      elim (Bool-cases (has_deployment names_with_rds ra now period j)) [
        | inr none_found ↦ none_found
        | inl deployed ↦
            let recorded : any (λ name. name == j.name) names ≡ true =
              any_of_mem (λ name. name == j.name) names (counted.4 deployed) (beq_refl j.name) in
            absurd (ground arith)
      ]

module _ (sort : List RadixJob → List RadixJob) (limit : ℕ) (names_with_rds : List String)
    (ra : RadixApplication) (now period : ℕ) (rjs : List RadixJob) where
  -- The history deletes a pipeline job only if it is one of the jobs of the application, is
  -- completed (succeeded, failed, stopped, or stopped with no changes) and has no deployment,
  -- provided that the sort invents no job.
  pub collected_jobs_are_completed :
      (j : RadixJob)
      → ((xs : List RadixJob) (x : RadixJob) → Memᴰ x (sort xs) → Memᴰ x xs)
      → Memᴰ j (get_radix_jobs_to_garbage_collect sort limit names_with_rds ra now period rjs)
      → Memᴰ j rjs
        × (job_is_completed j.status.condition ≡ true)
        × (has_deployment names_with_rds ra now period j ≡ false)
  unfolding get_radix_jobs_to_garbage_collect
  collected_jobs_are_completed j sorted m =
      let c = get_radix_job_candidates_for_deletion names_with_rds ra now period rjs in
      let (ex, held) = candidates-Sound names_with_rds ra now period rjs in
      elim (mem-append_cases c.explicitly_deleted
        (get_radix_jobs_to_garbage_collect_by_job_conditions_and_envs sort limit
          c.names_with_existing_rds c.buckets)
        m) [
          | inl at_once ↦
              let (in_jobs, free, because) = ex j at_once in
              (in_jobs, at_once_is_completed names_with_rds ra now period j because, free)
          | inr late ↦
              let (b, in_buckets, old, free) =
                mem_by_conditions sort limit c.names_with_existing_rds j c.buckets late in
              let counted = held b.condition b.env j (
                bucket_has_job b j c.buckets in_buckets
                  (sorted b.jobs j (mem-drop limit (sort b.jobs) old))) in
              (
                counted.0,
                counted.1,
                no_deployment_recorded names_with_rds ra now period rjs c.names_with_existing_rds
                    b.condition b.env j counted free,
              )
        ]

  -- A job that the history deletes and for which no rule says that it is deleted at once stands
  -- in a bucket of its condition and of an environment that it targets, and this bucket has more
  -- jobs than the limit, provided that the sort returns as many jobs and invents none.
  pub deleted_jobs_exceed_limit :
      (j : RadixJob)
      → ((xs : List RadixJob) (x : RadixJob) → Memᴰ x (sort xs) → Memᴰ x xs)
      → ((xs : List RadixJob) → length (sort xs) ≡ length xs)
      → Memᴰ j (get_radix_jobs_to_garbage_collect sort limit names_with_rds ra now period rjs)
      → is_explicitly_deleted names_with_rds ra now period j ≡ false
      → (b : Bucket) × Memᴰ b
          (get_radix_job_candidates_for_deletion names_with_rds ra now period rjs).buckets
        × Memᴰ j b.jobs
        × (b.condition ≡ j.status.condition)
        × Memᴰ b.env (get_radix_job_envs ra j)
        × (limit < length b.jobs)
  unfolding get_radix_jobs_to_garbage_collect
  deleted_jobs_exceed_limit j sorted same_length m keeps =
      let c = get_radix_job_candidates_for_deletion names_with_rds ra now period rjs in
      let (ex, held) = candidates-Sound names_with_rds ra now period rjs in
      elim (mem-append_cases c.explicitly_deleted
        (get_radix_jobs_to_garbage_collect_by_job_conditions_and_envs sort limit
          c.names_with_existing_rds c.buckets)
        m) [
          | inl at_once ↦ let (in_jobs, free, because) = ex j at_once in absurd (ground arith)
          | inr late ↦
              let (b, in_buckets, old, free) =
                mem_by_conditions sort limit c.names_with_existing_rds j c.buckets late in
              let k = sorted b.jobs j (mem-drop limit (sort b.jobs) old) in
              let counted = held b.condition b.env j (bucket_has_job b j c.buckets in_buckets k) in
              let n = same_length b.jobs in
              let bound = length-drop limit (sort b.jobs) old in
              (b, in_buckets, k, counted.2, counted.3, omega arith)
        ]
