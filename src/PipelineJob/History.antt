-- ===== src/PipelineJob/History.antt =====
-- The history of the pipeline jobs of an application: pkg/apis/job/job_history.go.
-- The names of the jobs that have a deployment are `names_with_rds`, the keys of the Go map.
-- The two-level map from conditions and environments to jobs is a list of buckets. `sort` is
-- `sortRadixJobsByCreatedDesc`; the order in which Go visits a map means nothing.
pub mod Buckets
pub mod Collected
pub mod Deleted
pub mod Deployments
pub mod ConfigMaps
use radix_operator.Prelude.{
  ℕ, String, Bool, true, false, not, ◌&&◌, Option, none, some, List, [], ◌∷◌, ◌++◌, map, ◌==◌, ◌-◌,
  ltb, any, is_empty, find_all, drop, if◌then◌else◌,
}
use radix_operator.PipelineJob.Types.{
  RadixJobCondition, unset, queued, waiting, running, succeeded, failed, stopped,
  stopped_no_changes, RadixPipelineType, build, build_deploy, promote, deploy, apply_config, other,
  RadixJob, RadixApplication, get_git_ref_or_default,
}

-- `==` on conditions
abbrev pub same_condition : RadixJobCondition → RadixJobCondition → Bool
same_condition unset unset = true
same_condition queued queued = true
same_condition waiting waiting = true
same_condition running running = true
same_condition succeeded succeeded = true
same_condition failed failed = true
same_condition stopped stopped = true
same_condition stopped_no_changes stopped_no_changes = true
same_condition _ _ = false

abbrev pub job_is_completed : RadixJobCondition → Bool
job_is_completed succeeded = true
job_is_completed failed = true
job_is_completed stopped = true
job_is_completed stopped_no_changes = true
job_is_completed unset = false
job_is_completed queued = false
job_is_completed waiting = false
job_is_completed running = false

abbrev pub is_succeeded : RadixJobCondition → Bool
is_succeeded succeeded = true
is_succeeded failed = false
is_succeeded stopped = false
is_succeeded stopped_no_changes = false
is_succeeded unset = false
is_succeeded queued = false
is_succeeded waiting = false
is_succeeded running = false

-- `t != radixv1.Build && t != radixv1.ApplyConfig`
abbrev pub makes_deployments : RadixPipelineType → Bool
makes_deployments build = false
makes_deployments apply_config = false
makes_deployments build_deploy = true
makes_deployments promote = true
makes_deployments deploy = true
makes_deployments other = true

-- `getBranchesToEnvsMap(ra)[branch]`
unfoldable pub envs_of_branch : RadixApplication → String → List String
envs_of_branch ra branch =
    map (λ env. env.name)
      (find_all (λ env. not (is_empty env.from) && env.from == branch) ra.environments)

envs_of_type : RadixApplication → RadixJob → RadixPipelineType → List String
unfolding envs_of_branch get_git_ref_or_default
envs_of_type ra rj build_deploy =
    if not (is_empty rj.spec.build_spec.to_environment)
    then rj.spec.build_spec.to_environment ∷ []
    else envs_of_branch ra (get_git_ref_or_default rj.spec.build_spec)
envs_of_type ra rj deploy = rj.spec.deploy_to ∷ []
envs_of_type ra rj promote = rj.spec.promote_to ∷ []
envs_of_type ra rj build = "" ∷ []
envs_of_type ra rj apply_config = "" ∷ []
envs_of_type ra rj other = "" ∷ []

unfoldable pub get_radix_job_envs : RadixApplication → RadixJob → List String
unfolding envs_of_type
get_radix_job_envs ra rj = envs_of_type ra rj rj.spec.pipeline_type

pub record Bucket : Type 0 where
  pub condition : RadixJobCondition
  pub env : String
  pub jobs : List RadixJob

-- `m[condition][env] = append(m[condition][env], rj)`
unfoldable pub add_to_bucket : RadixJob → String → List Bucket → List Bucket
add_to_bucket rj env [] =
    (record { condition = rj.status.condition; env = env; jobs = rj ∷ [] }) ∷ []
add_to_bucket rj env (b ∷ bs) =
    let rest = add_to_bucket rj env bs in
    if same_condition b.condition rj.status.condition && b.env == env
    then (record b { jobs = b.jobs ++ rj ∷ [] }) ∷ bs
    else b ∷ rest

unfoldable pub add_to_buckets : RadixJob → List String → List Bucket → List Bucket
unfolding add_to_bucket
add_to_buckets rj [] buckets = buckets
add_to_buckets rj (env ∷ envs) buckets = add_to_buckets rj envs (add_to_bucket rj env buckets)

-- The results of the loop of `getRadixJobCandidatesForDeletion`.
pub record Candidates : Type 0 where
  pub explicitly_deleted : List RadixJob
  pub buckets : List Bucket
  pub names_with_existing_rds : List String

-- `t != nil && t.Before(limit)`
abbrev pub is_before : Option ℕ → ℕ → Bool
is_before none limit = false
is_before (some t) limit = ltb t limit

module _ (names_with_rds : List String) (ra : RadixApplication) (now history_period_limit : ℕ) where
  unfoldable pub has_deployment : RadixJob → Bool
  has_deployment rj = any (λ name. name == rj.name) names_with_rds

  -- The two tests on a job without a deployment.
  unfoldable pub is_explicitly_deleted : RadixJob → Bool
  is_explicitly_deleted rj =
      if is_succeeded rj.status.condition && makes_deployments rj.spec.pipeline_type
      then true
      else job_is_completed rj.status.condition
        && is_before rj.status.created (now - history_period_limit)

  -- The end of a round of the loop.
  unfoldable pub add_completed : RadixJob → Candidates → Candidates
  unfolding add_to_buckets get_radix_job_envs
  add_completed rj c =
      if job_is_completed rj.status.condition
      then record c { buckets = add_to_buckets rj (get_radix_job_envs ra rj) c.buckets }
      else c

  unfoldable pub add_candidate : RadixJob → Candidates → Candidates
  unfolding has_deployment is_explicitly_deleted add_completed
  add_candidate rj c =
      if has_deployment rj
      then add_completed rj
          (record c { names_with_existing_rds = rj.name ∷ c.names_with_existing_rds })
      else if is_explicitly_deleted rj
      then record c { explicitly_deleted = c.explicitly_deleted ++ rj ∷ [] }
      else add_completed rj c

  unfoldable pub add_candidates : List RadixJob → Candidates → Candidates
  unfolding add_candidate
  add_candidates [] c = c
  add_candidates (rj ∷ rjs) c = add_candidates rjs (add_candidate rj c)

  unfoldable pub get_radix_job_candidates_for_deletion : List RadixJob → Candidates
  unfolding add_candidates
  get_radix_job_candidates_for_deletion rjs =
      add_candidates rjs
        (record { explicitly_deleted = []; buckets = []; names_with_existing_rds = [] })

module _ (sort : List RadixJob → List RadixJob) (history_limit : ℕ)
    (names_with_existing_rds : List String) where
  -- The jobs of a bucket beyond the limit, less those with a deployment.
  unfoldable pub beyond_limit : Bucket → List RadixJob
  beyond_limit b =
      find_all (λ rj. not (any (λ name. name == rj.name) names_with_existing_rds))
        (drop history_limit (sort b.jobs))

  unfoldable pub get_radix_jobs_to_garbage_collect_by_job_conditions_and_envs :
      List Bucket → List RadixJob
  unfolding beyond_limit
  get_radix_jobs_to_garbage_collect_by_job_conditions_and_envs [] = []
  get_radix_jobs_to_garbage_collect_by_job_conditions_and_envs (b ∷ bs) =
      beyond_limit b ++ get_radix_jobs_to_garbage_collect_by_job_conditions_and_envs bs

unfoldable pub get_radix_jobs_to_garbage_collect :
    (List RadixJob → List RadixJob)
    → ℕ
    → List String
    → RadixApplication
    → ℕ
    → ℕ
    → List RadixJob
    → List RadixJob
unfolding get_radix_job_candidates_for_deletion
    get_radix_jobs_to_garbage_collect_by_job_conditions_and_envs
get_radix_jobs_to_garbage_collect sort history_limit names_with_rds ra now history_period_limit
      rjs =
    let c = get_radix_job_candidates_for_deletion names_with_rds ra now history_period_limit rjs in
    c.explicitly_deleted
    ++ get_radix_jobs_to_garbage_collect_by_job_conditions_and_envs sort history_limit
        c.names_with_existing_rds c.buckets
