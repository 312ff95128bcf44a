-- ===== src/PipelineJob/History/ConfigMaps/Orphans.antt =====
-- The ConfigMaps that `Cleanup` of pkg/apis/job/job_history.go leaves.
use radix_operator.Prelude.{
  ℕ, String, true, false, not, ◌≡◌, refl, ◌⊎◌, inl, inr, Option, none, some, List, [], ◌∷◌, ◌++◌,
  map, Memᴰ, ◌∙◌, ◌==◌, beq_refl, any, mem_find_all, arith, Bool-cases,
}
use radix_operator.PipelineJob.Types.{RadixJob}
use radix_operator.PipelineJob.History.ConfigMaps.{
  ConfigMap, Namespace, Outcome, Answers, config_map_deleted, delete_config_map_without_job,
  delete_config_maps, config_maps_listed, garbage_collect_config_maps, garbage_collect_radix_jobs,
  then_config_maps, cleanup,
}

append_nil : {A : Type 0} (xs ys : List A) → xs ++ ys ≡ [] → (xs ≡ []) × (ys ≡ [])
append_nil [] ys h = (refl, h)
append_nil (x ∷ xs) ys h = cc

module _ (answers : Answers) (names : List String) where
  -- Each stored ConfigMap has a job, or the loop still comes to it.
  abbrev Left : List ConfigMap → Namespace → Type 0
  Left ms ns =
      (k : ConfigMap)
      → Memᴰ k ns.config_maps
      → (any (λ name. name == k.job_name) names ≡ true) ⊎ Memᴰ k ms

  past_head :
      (k m : ConfigMap) (ms : List ConfigMap)
      → (k ≡ m → any (λ name. name == k.job_name) names ≡ true)
      → (any (λ name. name == k.job_name) names ≡ true) ⊎ Memᴰ k (m ∷ ms)
      → (any (λ name. name == k.job_name) names ≡ true) ⊎ Memᴰ k ms
  past_head k m ms h (inl e) = inl e
  past_head k m ms h (inr (Memᴰ.head e)) = inl (h e)
  past_head k m ms h (inr (Memᴰ.tail r)) = inr r

  config_map_deleted-Left :
      (answer : Option String) (m : ConfigMap) (ms : List ConfigMap) (ns : Namespace)
      → Left (m ∷ ms) ns
      → (config_map_deleted answer m.name ns).errors ≡ []
      → Left ms (config_map_deleted answer m.name ns).namespace
        × ((config_map_deleted answer m.name ns).namespace.radix_jobs ≡ ns.radix_jobs)
  unfolding config_map_deleted
  config_map_deleted-Left (some e) m ms ns left fine = cc
  config_map_deleted-Left none m ms ns left fine = (
    λ k in_stored.
        let found = mem_find_all (λ x. not (x.name == m.name)) ns.config_maps in_stored in
        past_head k m ms
          (λ e.
            let t : (k.name == m.name) ≡ true = rw e (beq_refl m.name) in
            absurd (ground (arith, found.1)))
          (left k found.0),
    refl,
  )

  delete_one-Left :
      (m : ConfigMap) (ms : List ConfigMap) (ns : Namespace)
      → Left (m ∷ ms) ns
      → (delete_config_map_without_job answers names m ns).errors ≡ []
      → Left ms (delete_config_map_without_job answers names m ns).namespace
        × ((delete_config_map_without_job answers names m ns).namespace.radix_jobs ≡ ns.radix_jobs)
  unfolding delete_config_map_without_job
  delete_one-Left m ms ns left fine = elim (Bool-cases (any (λ name. name == m.job_name) names)) [
    | inl has_job ↦
        rw has_job ((λ k in_stored. past_head k m ms (λ e. rw e has_job) (left k in_stored)), refl)
    | inr gone ↦
        rw gone (
          config_map_deleted-Left (answers.delete_config_map m.name) m ms ns left (rw gone at fine))
  ]

  delete_config_maps-Left :
      (ms : List ConfigMap) (ns : Namespace)
      → Left ms ns
      → (delete_config_maps answers names ms ns).errors ≡ []
      → Left [] (delete_config_maps answers names ms ns).namespace
        × ((delete_config_maps answers names ms ns).namespace.radix_jobs ≡ ns.radix_jobs)
  unfolding delete_config_maps
  delete_config_maps-Left [] ns left fine = (left, refl)
  delete_config_maps-Left (m ∷ ms) ns left fine =
      let one = delete_config_map_without_job answers names m ns in
      let none_failed =
        append_nil one.errors (delete_config_maps answers names ms one.namespace).errors fine in
      let (left', same) = delete_one-Left m ms ns left none_failed.0 in
      let (left'', same') = delete_config_maps-Left ms one.namespace left' none_failed.1 in
      (left'', same' ∙ same)

has_job :
    (k : ConfigMap) (names : List String)
    → (any (λ name. name == k.job_name) names ≡ true) ⊎ Memᴰ k []
    → any (λ name. name == k.job_name) names ≡ true
has_job k names (inl e) = e
has_job k names (inr x) = elim x [ ]

-- No ConfigMap of the namespace belongs to a pipeline job that is gone.
abbrev pub NoOrphan : Namespace → Type 0
NoOrphan ns =
    (k : ConfigMap)
    → Memᴰ k ns.config_maps
    → any (λ name. name == k.job_name) (map (λ j. j.name) ns.radix_jobs) ≡ true

config_maps_listed-NoOrphan :
    (answers : Answers) (maps jobs : Option String) (ns : Namespace)
    → (config_maps_listed answers maps jobs ns).errors ≡ []
    → NoOrphan (config_maps_listed answers maps jobs ns).namespace
unfolding config_maps_listed
config_maps_listed-NoOrphan answers (some e) jobs ns fine = cc
config_maps_listed-NoOrphan answers none (some e) ns fine = cc
config_maps_listed-NoOrphan answers none none ns fine =
    let names = map (λ j. j.name) ns.radix_jobs in
    let (left, same) =
      delete_config_maps-Left answers names ns.config_maps ns (λ m in_maps. inr in_maps) fine in
    rw same (λ k in_stored. has_job k names (left k in_stored))

then_config_maps-NoOrphan :
    (sort : List RadixJob → List RadixJob) (limit now period : ℕ) (answers : Answers)
    (jobs : Outcome) (errors : List String)
    → (then_config_maps sort limit now period answers jobs errors).errors ≡ []
    → NoOrphan (then_config_maps sort limit now period answers jobs errors).namespace
unfolding then_config_maps garbage_collect_config_maps
then_config_maps-NoOrphan sort limit now period answers jobs (e ∷ es) fine = cc
then_config_maps-NoOrphan sort limit now period answers jobs [] fine =
    config_maps_listed-NoOrphan answers answers.list_config_maps answers.list_jobs_again
      jobs.namespace fine

-- If a cleanup that no other one excludes returns no error, then each ConfigMap of a pipeline job
-- that is still stored belongs to a pipeline job that is still stored, whatever jobs the history
-- deletes and however it sorts them.
pub cleanup-NoOrphan :
    (sort : List RadixJob → List RadixJob) (limit now period : ℕ) (answers : Answers)
    (ns : Namespace) (k : ConfigMap)
    → (cleanup sort limit now period answers false ns).errors ≡ []
    → Memᴰ k (cleanup sort limit now period answers false ns).namespace.config_maps
    → any
        (λ name. name == k.job_name)
        (map (λ j. j.name) (cleanup sort limit now period answers false ns).namespace.radix_jobs)
      ≡ true
unfolding cleanup
cleanup-NoOrphan sort limit now period answers ns k fine =
    let jobs = garbage_collect_radix_jobs sort limit now period answers ns in
    then_config_maps-NoOrphan sort limit now period answers jobs jobs.errors fine k
