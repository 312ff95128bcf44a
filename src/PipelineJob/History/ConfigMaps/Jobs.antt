-- ===== src/PipelineJob/History/ConfigMaps/Jobs.antt =====
-- The pipeline jobs that `Cleanup` of pkg/apis/job/job_history.go deletes from the store.
use radix_operator.Prelude.{
  ℕ, String, true, not, ◌≡◌, refl, ◌⊎◌, inl, inr, Option, none, some, List, [], ◌∷◌, map, Memᴰ,
  ◌==◌, any, All, Distinct, same_of_name, find_all_of_mem, Bool-cases,
}
use radix_operator.PipelineJob.Types.{RadixJob, RadixApplication}
use radix_operator.PipelineJob.History.{
  job_is_completed, has_deployment, get_radix_jobs_to_garbage_collect,
}
use radix_operator.PipelineJob.History.Deleted.{collected_jobs_are_completed}
use radix_operator.PipelineJob.History.Deployments.{
  RadixJobsWithRadixDeployments, job_names, get_radix_jobs_map_to_radix_deployments,
  lists_no_deployment_of, get_radix_jobs_map_to_radix_deployments-absent,
}
use radix_operator.PipelineJob.History.ConfigMaps.{
  Namespace, Answers, ApplicationAnswer, found, not_found, no_jobs, job_deleted, delete_radix_jobs,
  with_deployments, with_application, jobs_listed, garbage_collect_radix_jobs,
}

mem-job_deleted :
    (answer : Option String) (name : String) (ns : Namespace) (j : RadixJob)
    → Memᴰ j ns.radix_jobs
    → Memᴰ j (job_deleted answer name ns).namespace.radix_jobs ⊎ ((j.name == name) ≡ true)
unfolding job_deleted
mem-job_deleted (some e) name ns j m = inl m
mem-job_deleted none name ns j m = elim (Bool-cases (any (λ k. k.name == name) ns.radix_jobs)) [
  | inr missing ↦ inl (rw missing m)
  | inl there ↦ elim (Bool-cases (j.name == name)) [
    | inl same ↦ inr same
    | inr other ↦
        inl (rw there (find_all_of_mem (λ k. not (k.name == name)) ns.radix_jobs m (rw other refl)))
  ]
]

module _ (answers : Answers) where
  -- A job stays unless one of its name is to go.
  mem-delete_radix_jobs :
      (rjs : List RadixJob) (ns : Namespace) (j : RadixJob)
      → Memᴰ j ns.radix_jobs
      → Memᴰ j (delete_radix_jobs answers rjs ns).namespace.radix_jobs
        ⊎ ((rj : RadixJob) × Memᴰ rj rjs × ((j.name == rj.name) ≡ true))
  unfolding delete_radix_jobs
  mem-delete_radix_jobs [] ns j m = inl m
  mem-delete_radix_jobs (rj ∷ rjs) ns j m =
      elim (mem-job_deleted (answers.delete_job rj.name) rj.name ns j m) [
        | inr same ↦ inr (rj, Memᴰ.head refl, same)
        | inl left ↦
            elim (mem-delete_radix_jobs rjs
              (job_deleted (answers.delete_job rj.name) rj.name ns).namespace j left) [
                | inl kept ↦ inl kept
                | inr (k, there, same) ↦ inr (k, Memᴰ.tail there, same)
              ]
      ]

module _ (sort : List RadixJob → List RadixJob) (limit now period : ℕ) (answers : Answers)
    (ns : Namespace) (j : RadixJob) (distinct : Distinct (map (λ k. k.name) ns.radix_jobs))
    (sorts : (xs : List RadixJob) (x : RadixJob) → Memᴰ x (sort xs) → Memᴰ x xs)
    (stored : Memᴰ j ns.radix_jobs) where
  -- The job is completed, and the deployments of each environment are listed and not of it.
  abbrev HasNoDeployment : RadixApplication → Type 0
  HasNoDeployment ra =
      (job_is_completed j.status.condition ≡ true)
      × All (λ env. lists_no_deployment_of j.name (answers.list_deployments env.name) ≡ true)
          ra.environments

  with_deployments-Kept :
      (ra : RadixApplication) (rds : RadixJobsWithRadixDeployments)
      → get_radix_jobs_map_to_radix_deployments answers.list_deployments ra ≡ rds
      → Memᴰ j (with_deployments sort limit now period answers ra rds ns).namespace.radix_jobs
        ⊎ HasNoDeployment ra
  unfolding with_deployments has_deployment
  with_deployments-Kept ra (RadixJobsWithRadixDeployments.failed e) is = inl stored
  with_deployments-Kept ra (job_names names) is =
      let collected =
        get_radix_jobs_to_garbage_collect sort limit names ra now period ns.radix_jobs in
      elim (mem-delete_radix_jobs answers collected ns j stored) [
        | inl kept ↦ inl kept
        | inr (rj, there, name) ↦
            let (in_jobs, completed, free) =
              collected_jobs_are_completed sort limit names ra now period ns.radix_jobs rj sorts
                there in
            let same = same_of_name (λ k. k.name) ns.radix_jobs distinct stored in_jobs name in
            inr (
              rw (← same) completed,
              get_radix_jobs_map_to_radix_deployments-absent answers.list_deployments ra names
                  j.name is (rw (← same) free),
            )
      ]

  with_application-Kept :
      (application : ApplicationAnswer)
      → Memᴰ j (with_application sort limit now period answers application ns).namespace.radix_jobs
        ⊎ ((ra : RadixApplication) × (application ≡ found ra) × HasNoDeployment ra)
  unfolding with_application
  with_application-Kept not_found = inl stored
  with_application-Kept (ApplicationAnswer.failed e) = inl stored
  with_application-Kept (found ra) = elim (with_deployments-Kept ra _ refl) [
    | inl kept ↦ inl kept
    | inr none_there ↦ inr (ra, refl, none_there)
  ]

  jobs_listed-Kept :
      (listing : Option String)
      → Memᴰ j (jobs_listed sort limit now period answers listing ns).namespace.radix_jobs
        ⊎ ((ra : RadixApplication) × (answers.application ≡ found ra) × HasNoDeployment ra)
  unfolding jobs_listed
  jobs_listed-Kept (some e) = inl stored
  jobs_listed-Kept none = elim (Bool-cases (no_jobs ns.radix_jobs)) [
    | inl empty ↦ inl (rw empty stored)
    | inr more ↦ rw more (with_application-Kept answers.application)
  ]

  -- The history deletes a stored pipeline job only if it is completed (succeeded, failed, stopped,
  -- or stopped with no changes), the application is found, and in each environment of its spec the
  -- deployments are listed and none of them has the label of the job. The names of the stored jobs
  -- are distinct, and the sort invents no job.
  pub deleted_jobs_are_completed :
      Memᴰ j (garbage_collect_radix_jobs sort limit now period answers ns).namespace.radix_jobs
      ⊎ ((ra : RadixApplication) × (answers.application ≡ found ra)
          × (job_is_completed j.status.condition ≡ true)
          × All
              (λ env. lists_no_deployment_of j.name (answers.list_deployments env.name) ≡ true)
              ra.environments)
  unfolding garbage_collect_radix_jobs
  deleted_jobs_are_completed = elim (jobs_listed-Kept answers.list_jobs) [
    | inl kept ↦ inl kept
    | inr (ra, is_found, none_there) ↦ inr (ra, is_found, none_there.0, none_there.1)
  ]
