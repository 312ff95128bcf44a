-- ===== src/PipelineJob/History/Deployments.antt =====
-- The pipeline jobs that have a deployment: `getRadixJobsMapToRadixDeployments` of
-- pkg/apis/job/job_history.go. `list` is the answer of the API server to the list request for the
-- deployments in the namespace of an environment.
use radix_operator.Prelude.{
  String, Bool, true, false, Option, none, some, List, [], ◌∷◌, ◌≡◌, refl, inl, inr, ◌==◌, any, all,
  not, All, Bool-cases, arith,
}
use radix_operator.PipelineJob.Types.{Environment, RadixApplication}

-- The values of the label radix-job-name of the deployments, none if one has no such label, or the
-- error.
pub data ListAnswer : Type 0 where
  listed : List (Option String) → ListAnswer
  failed : String → ListAnswer

-- The keys of `rdRadixJobs`, or the error.
pub data RadixJobsWithRadixDeployments : Type 0 where
  job_names : List String → RadixJobsWithRadixDeployments
  failed : String → RadixJobsWithRadixDeployments

-- `if jobName, ok := labels[...]; ok { rdRadixJobs[jobName] = rd }` for each deployment.
unfoldable pub add_labels : List (Option String) → List String → List String
add_labels [] names = names
add_labels (none ∷ rds) names = add_labels rds names
add_labels (some name ∷ rds) names = add_labels rds (name ∷ names)

-- `if err != nil { return nil, err }`, then the rest of the loop.
abbrev unless_list_failed :
    ListAnswer
    → List String
    → (List String → RadixJobsWithRadixDeployments)
    → RadixJobsWithRadixDeployments
unless_list_failed (ListAnswer.failed e) names rest = RadixJobsWithRadixDeployments.failed e
unless_list_failed (listed rds) names rest = rest (add_labels rds names)

unfoldable pub add_environments :
    (String → ListAnswer) → List Environment → List String → RadixJobsWithRadixDeployments
unfolding add_labels
add_environments list [] names = job_names names
add_environments list (env ∷ envs) names =
    unless_list_failed (list env.name) names (add_environments list envs)

unfoldable pub get_radix_jobs_map_to_radix_deployments :
    (String → ListAnswer) → RadixApplication → RadixJobsWithRadixDeployments
unfolding add_environments
get_radix_jobs_map_to_radix_deployments list ra = add_environments list ra.environments []

abbrev is_label : String → Option String → Bool
is_label name none = false
is_label name (some label) = label == name

-- The deployments are listed, and none of them is of the job.
abbrev pub lists_no_deployment_of : String → ListAnswer → Bool
lists_no_deployment_of name (ListAnswer.failed e) = false
lists_no_deployment_of name (listed rds) = all (λ l. not (is_label name l)) rds

add_labels-absent :
    (name : String) (rds : List (Option String)) (names : List String)
    → any (λ n. n == name) (add_labels rds names) ≡ false
    → (all (λ l. not (is_label name l)) rds ≡ true) × (any (λ n. n == name) names ≡ false)
unfolding add_labels
add_labels-absent name [] names h = (refl, h)
add_labels-absent name (none ∷ rds) names h = add_labels-absent name rds names h
add_labels-absent name (some label ∷ rds) names h =
    let (rest, before) = add_labels-absent name rds (label ∷ names) h in
    elim (Bool-cases (label == name)) [
      | inl e ↦ let never : true ≡ false = rw e at before in absurd (ground arith)
      | inr e ↦ (rw e rest, rw e at before)
    ]

add_environments-absent :
    (list : String → ListAnswer) (name : String) (envs : List Environment)
    (before names : List String)
    → add_environments list envs before ≡ job_names names
    → any (λ n. n == name) names ≡ false
    → All (λ env. lists_no_deployment_of name (list env.name) ≡ true) envs
      × (any (λ n. n == name) before ≡ false)
unfolding add_environments
add_environments-absent list name [] before names h absent =
    (tt, let same : before ≡ names = cc in rw same absent)
add_environments-absent list name (env ∷ envs) before names h absent =
    of_answer (list env.name) (λ next. add_environments-absent list name envs next names) h
  where
    of_answer :
        (answer : ListAnswer)
        → ((next : List String)
            → add_environments list envs next ≡ job_names names
            → any (λ n. n == name) names ≡ false
            → All (λ env. lists_no_deployment_of name (list env.name) ≡ true) envs
              × (any (λ n. n == name) next ≡ false))
        → unless_list_failed answer before (add_environments list envs) ≡ job_names names
        → ((lists_no_deployment_of name answer ≡ true)
            × All (λ env. lists_no_deployment_of name (list env.name) ≡ true) envs)
          × (any (λ n. n == name) before ≡ false)
    of_answer (ListAnswer.failed e) ih h' = absurd (clash h')
      where
        clash : RadixJobsWithRadixDeployments.failed e ≡ job_names names → ⊥
        clash q = cc
    of_answer (listed rds) ih h' =
        let (others, now) = ih (add_labels rds before) h' absent in
        let (here, earlier) = add_labels-absent name rds before now in ((here, others), earlier)

-- A name that is no key has no deployment in an environment of the application.
pub get_radix_jobs_map_to_radix_deployments-absent :
    (list : String → ListAnswer) (ra : RadixApplication) (names : List String) (name : String)
    → get_radix_jobs_map_to_radix_deployments list ra ≡ job_names names
    → any (λ n. n == name) names ≡ false
    → All (λ env. lists_no_deployment_of name (list env.name) ≡ true) ra.environments
unfolding get_radix_jobs_map_to_radix_deployments
get_radix_jobs_map_to_radix_deployments-absent list ra names name h absent =
    (add_environments-absent list name ra.environments [] names h absent).0
