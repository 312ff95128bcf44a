-- ===== src/PipelineJob/History/Collected.antt =====
-- Which pipeline jobs `getRadixJobsToGarbageCollect` of pkg/apis/job/job_history.go selects.
use radix_operator.Prelude.{
  ℕ, String, true, false, ◌≡◌, refl, inl, inr, List, [], ◌∷◌, ◌++◌, Memᴰ, mem-append_cases, arith,
  Bool-cases,
}
use radix_operator.PipelineJob.Types.{RadixJobCondition, RadixJob, RadixApplication}
use radix_operator.PipelineJob.History.{
  job_is_completed, get_radix_job_envs, add_to_buckets, Candidates, has_deployment,
  is_explicitly_deleted, add_completed, add_candidate, add_candidates,
  get_radix_job_candidates_for_deletion,
}
use radix_operator.PipelineJob.History.Buckets.{Held, add_to_buckets_cases, mem-one}

module _ (names_with_rds : List String) (ra : RadixApplication) (now period : ℕ)
    (all_jobs : List RadixJob) where
  -- A job that may be deleted at once.
  abbrev pub Explicit : RadixJob → Type 0
  Explicit j =
      Memᴰ j all_jobs
      × (has_deployment names_with_rds ra now period j ≡ false)
      × (is_explicitly_deleted names_with_rds ra now period j ≡ true)

  -- A job of a bucket, when the names are those recorded so far.
  abbrev pub Counted : List String → RadixJobCondition → String → RadixJob → Type 0
  Counted names condition env j =
      Memᴰ j all_jobs
      × (job_is_completed j.status.condition ≡ true)
      × (condition ≡ j.status.condition)
      × Memᴰ env (get_radix_job_envs ra j)
      × (has_deployment names_with_rds ra now period j ≡ true → Memᴰ j.name names)

  -- What the loop keeps.
  abbrev pub Sound : Candidates → Type 0
  Sound c =
      ((j : RadixJob) → Memᴰ j c.explicitly_deleted → Explicit j)
      × ((condition : RadixJobCondition) (env : String) (j : RadixJob)
          → Held condition env j c.buckets
          → Counted c.names_with_existing_rds condition env j)

  add_completed-Sound :
      (rj : RadixJob) (c : Candidates)
      → Memᴰ rj all_jobs
      → (has_deployment names_with_rds ra now period rj ≡ true
          → Memᴰ rj.name c.names_with_existing_rds)
      → Sound c
      → Sound (add_completed names_with_rds ra now period rj c)
  unfolding add_completed
  add_completed-Sound rj c m recorded (ex, held) =
      elim (Bool-cases (job_is_completed rj.status.condition)) [
        | inr open_job ↦ rw open_job (ex, held)
        | inl completed ↦ rw completed (ex, counted completed)
      ]
    where
      counted :
          job_is_completed rj.status.condition ≡ true
          → (condition : RadixJobCondition) (env : String) (j : RadixJob)
          → Held condition env j (add_to_buckets rj (get_radix_job_envs ra rj) c.buckets)
          → Counted c.names_with_existing_rds condition env j
      counted completed condition env j h =
          elim (add_to_buckets_cases rj (get_radix_job_envs ra rj) c.buckets condition env j h) [
            | inl old ↦ held condition env j old
            | inr ((is_rj, same), in_envs) ↦ rw is_rj (m, completed, same, in_envs, recorded)
          ]

  record_name-Sound :
      (rj : RadixJob) (c : Candidates)
      → Sound c
      → Sound (record c { names_with_existing_rds = rj.name ∷ c.names_with_existing_rds })
  record_name-Sound rj c (ex, held) = (
    ex,
    λ condition env j h.
        let (m, completed, same, in_envs, recorded) = held condition env j h in
        (m, completed, same, in_envs, λ d. Memᴰ.tail (recorded d)),
  )

  delete_at_once-Sound :
      (rj : RadixJob) (c : Candidates)
      → Explicit rj
      → Sound c
      → Sound (record c { explicitly_deleted = c.explicitly_deleted ++ rj ∷ [] })
  delete_at_once-Sound rj c new (ex, held) = (grown, held)
    where
      grown : (j : RadixJob) → Memᴰ j (c.explicitly_deleted ++ rj ∷ []) → Explicit j
      grown j m = elim (mem-append_cases c.explicitly_deleted (rj ∷ []) m) [
        | inl old ↦ ex j old
        | inr last ↦ rw (mem-one last) new
      ]

  add_candidate-Sound :
      (rj : RadixJob) (c : Candidates)
      → Memᴰ rj all_jobs
      → Sound c
      → Sound (add_candidate names_with_rds ra now period rj c)
  unfolding add_candidate
  add_candidate-Sound rj c m sound =
      elim (Bool-cases (has_deployment names_with_rds ra now period rj)) [
        | inl deployed ↦ rw deployed (
            add_completed-Sound rj
              (record c { names_with_existing_rds = rj.name ∷ c.names_with_existing_rds }) m
              (λ d. Memᴰ.head refl) (record_name-Sound rj c sound))
        | inr free ↦ elim (Bool-cases (is_explicitly_deleted names_with_rds ra now period rj)) [
          | inl at_once ↦ rw (free, at_once) (delete_at_once-Sound rj c (m, free, at_once) sound)
          | inr counts ↦
              rw (free, counts) (add_completed-Sound rj c m (λ d. absurd (ground arith)) sound)
        ]
      ]

  add_candidates-Sound :
      (rjs : List RadixJob) (c : Candidates)
      → ((j : RadixJob) → Memᴰ j rjs → Memᴰ j all_jobs)
      → Sound c
      → Sound (add_candidates names_with_rds ra now period rjs c)
  unfolding add_candidates
  add_candidates-Sound [] c sub sound = sound
  add_candidates-Sound (rj ∷ rjs) c sub sound =
      add_candidates-Sound rjs (add_candidate names_with_rds ra now period rj c)
        (λ j m. sub j (Memᴰ.tail m)) (add_candidate-Sound rj c (sub rj (Memᴰ.head refl)) sound)

pub candidates-Sound :
    (names_with_rds : List String) (ra : RadixApplication) (now period : ℕ) (rjs : List RadixJob)
    → Sound names_with_rds ra now period rjs
        (get_radix_job_candidates_for_deletion names_with_rds ra now period rjs)
unfolding get_radix_job_candidates_for_deletion Held
candidates-Sound names_with_rds ra now period rjs =
    add_candidates-Sound names_with_rds ra now period rjs rjs _ (λ j m. m)
      ((λ j m. elim m [ ]), λ condition env j h. elim h [ ])
