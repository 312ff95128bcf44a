-- ===== src/PipelineJob/Targets.antt =====
-- Which environments a job targets: `GetTargetEnvironments` of
-- pkg/apis/applicationconfig/applicationconfig.go and `getTargetEnvironments`,
-- `hasConflictingTargetEnvironments` of pkg/apis/job/job.go.
-- `matches_pattern` is `branch.MatchesPattern`, a regular expression match, and is a parameter.
-- A Go map that serves as a set is a list without repetition; its order means nothing.
pub mod Selection
pub mod Conflict
use radix_operator.Prelude.{
  String, Bool, true, false, not, ◌&&◌, ◌||◌, Option, none, some, List, [], ◌∷◌, ◌==◌, is_empty,
  any, if◌then◌else◌,
}
use radix_operator.PipelineJob.Types.{
  RadixPipelineType, build, build_deploy, promote, deploy, apply_config, other, RadixJobSpec,
  RadixJob, Environment, RadixApplication, get_git_ref_or_default,
}

-- `_, ok := m[k]`
abbrev pub has_key : List String → String → Bool
has_key ks k = any (λ j. j == k) ks

-- `m[k] = nil`
abbrev pub put_key : String → List String → List String
put_key k ks = if has_key ks k then ks else k ∷ ks

pub record TargetEnvironments : Type 0 where
  pub targets : List String
  pub ignored_for_webhook : List String
  pub ignored_for_git_ref_type : List String

-- `env.Build.WebhookEnabled != nil && !*env.Build.WebhookEnabled`
abbrev pub is_disabled : Option Bool → Bool
is_disabled none = false
is_disabled (some enabled) = not enabled

-- The `Reduce` over the environments of a build job, which keeps those asked for.
pub keep_requested : String → List String → List String
keep_requested to_environment [] = []
keep_requested to_environment (env ∷ envs) =
    let rest = keep_requested to_environment envs in
    if is_empty to_environment || env == to_environment then put_key env rest else rest

abbrev pub is_ignored_for_webhook : Environment → Bool → Bool
is_ignored_for_webhook env triggered_from_webhook =
    triggered_from_webhook && is_disabled env.webhook_enabled

abbrev pub is_ignored_for_git_ref_type : Environment → String → Bool
is_ignored_for_git_ref_type env git_ref_type =
    not (is_empty env.from_type)
    && not (is_empty git_ref_type)
    && not (env.from_type == git_ref_type)

module _ (matches_pattern : String → String → Bool) where
  -- The branch and the pattern of an environment, without the two reasons to ignore it.
  abbrev pub builds_from : Environment → String → Bool
  builds_from env git_ref = not (is_empty env.from) && matches_pattern env.from git_ref

  -- The loop of `GetTargetEnvironments`. It appends in the order of the environments.
  unfoldable pub target_environments :
      String → String → List Environment → Bool → TargetEnvironments
  target_environments git_ref git_ref_type [] webhook = record {
    targets = [];
    ignored_for_webhook = [];
    ignored_for_git_ref_type = [];
  }
  target_environments git_ref git_ref_type (env ∷ envs) webhook =
      let rest = target_environments git_ref git_ref_type envs webhook in
      if not (builds_from env git_ref)
      then rest
      else if is_ignored_for_webhook env webhook
      then record rest { ignored_for_webhook = env.name ∷ rest.ignored_for_webhook }
      else if is_ignored_for_git_ref_type env git_ref_type
      then record rest { ignored_for_git_ref_type = env.name ∷ rest.ignored_for_git_ref_type }
      else record rest { targets = env.name ∷ rest.targets }

  pub build_targets : RadixJobSpec → RadixApplication → List String
  unfolding get_git_ref_or_default target_environments keep_requested
  build_targets spec ra =
      keep_requested spec.build_spec.to_environment
        (target_environments (get_git_ref_or_default spec.build_spec) spec.build_spec.git_ref_type
          ra.environments spec.triggered_from_webhook).targets

  -- The `switch` of `getTargetEnvironments`.
  pub targets_of_type : RadixPipelineType → RadixJobSpec → RadixApplication → List String
  unfolding build_targets
  targets_of_type build spec ra = build_targets spec ra
  targets_of_type build_deploy spec ra = build_targets spec ra
  targets_of_type deploy spec ra = spec.deploy_to ∷ []
  targets_of_type promote spec ra = spec.promote_to ∷ []
  targets_of_type apply_config spec ra = []
  targets_of_type other spec ra = []

  unfoldable pub get_target_environments : RadixJob → RadixApplication → List String
  unfolding targets_of_type keep_requested target_environments
  get_target_environments rj ra = targets_of_type rj.spec.pipeline_type rj.spec ra

-- `len(m) == 0`
abbrev pub no_targets : List String → Bool
no_targets [] = true
no_targets (_ ∷ _) = false

-- `hasConflictingTargetEnvironments`
unfoldable pub has_conflicting_target_environments : List String → List String → Bool
has_conflicting_target_environments targets other_targets =
    any (λ env. has_key other_targets env) targets
