-- ===== src/PipelineJob/Targets/Selection.antt =====
-- Which environments `GetTargetEnvironments` and `getTargetEnvironments` select, as filters.
use radix_operator.Prelude.{
  String, Bool, true, false, not, ◌&&◌, ◌||◌, ◌≡◌, refl, ap, List, [], ◌∷◌, map, ◌==◌, eq_iff,
  beq_refl, is_empty, find_all, if◌then◌else◌, arith, Bool-cases, inl, inr,
}
use radix_operator.PipelineJob.Types.{
  RadixPipelineType, build, build_deploy, promote, deploy, apply_config, other, RadixJobSpec,
  RadixJob, Environment, RadixApplication, is_build_job, get_git_ref_or_default,
}
use radix_operator.PipelineJob.Targets.{
  TargetEnvironments, has_key, put_key, is_ignored_for_webhook, is_ignored_for_git_ref_type,
  builds_from, target_environments, keep_requested, get_target_environments, build_targets,
  targets_of_type,
}

pub has_key-put_key :
    (e k : String) (ks : List String) → has_key (put_key k ks) e ≡ (k == e || has_key ks e)
has_key-put_key e k ks = elim (Bool-cases (k == e)) [
  | inl same ↦ rw same (has_same ((eq_iff k e).0 same))
  | inr differs ↦ rw differs (ground arith)
]
  where
    has_same : k ≡ e → has_key (put_key k ks) e ≡ true
    has_same p = rw (← p) (ground (arith, beq_refl k))

abbrev names : List Environment → List String
names = map (λ env. env.name)

-- One round of the loop, for any outcome of its three tests.
split_step :
    (b w g : Bool) (env : Environment) (rest : TargetEnvironments) (xs ys zs : List Environment)
    → (rest.targets ≡ names xs)
      × (rest.ignored_for_webhook ≡ names ys)
      × (rest.ignored_for_git_ref_type ≡ names zs)
    → let r =
        if not b
        then rest
        else if w
        then record rest { ignored_for_webhook = env.name ∷ rest.ignored_for_webhook }
        else if g
        then record rest { ignored_for_git_ref_type = env.name ∷ rest.ignored_for_git_ref_type }
        else record rest { targets = env.name ∷ rest.targets } in
      (r.targets ≡ names (if b && not w && not g then env ∷ xs else xs))
      × (r.ignored_for_webhook ≡ names (if b && w then env ∷ ys else ys))
      × (r.ignored_for_git_ref_type ≡ names (if b && not w && g then env ∷ zs else zs))
split_step false w g env rest xs ys zs h = h
split_step true true g env rest xs ys zs h = (h.0, ap (◌∷◌ env.name) h.1, h.2)
split_step true false true env rest xs ys zs h = (h.0, h.1, ap (◌∷◌ env.name) h.2)
split_step true false false env rest xs ys zs h = (ap (◌∷◌ env.name) h.0, h.1, h.2)

module _ (matches_pattern : String → String → Bool) (git_ref git_ref_type : String)
    (webhook : Bool) where
  -- The three results are the names of the environments that build from the git ref, split by
  -- the first reason to ignore an environment, each in the order of the application.
  target_environments_split :
      (envs : List Environment)
      → let r = target_environments matches_pattern git_ref git_ref_type envs webhook in
        (r.targets
          ≡ names (
              find_all
                (λ env.
                  builds_from matches_pattern env git_ref
                  && not (is_ignored_for_webhook env webhook)
                  && not (is_ignored_for_git_ref_type env git_ref_type))
                envs))
        × (r.ignored_for_webhook
            ≡ names (
                find_all
                  (λ env.
                    builds_from matches_pattern env git_ref && is_ignored_for_webhook env webhook)
                  envs))
        × (r.ignored_for_git_ref_type
            ≡ names (
                find_all
                  (λ env.
                    builds_from matches_pattern env git_ref
                    && not (is_ignored_for_webhook env webhook)
                    && is_ignored_for_git_ref_type env git_ref_type)
                  envs))
  unfolding target_environments
  target_environments_split [] = (refl, refl, refl)
  target_environments_split (env ∷ envs) =
      let ih = target_environments_split envs in
      split_step (builds_from matches_pattern env git_ref) (is_ignored_for_webhook env webhook)
        (is_ignored_for_git_ref_type env git_ref_type) env
        (target_environments matches_pattern git_ref git_ref_type envs webhook) _ _ _ ih

has_key-keep_requested :
    (to_environment e : String) (envs : List String)
    → has_key (keep_requested to_environment envs) e
      ≡ (has_key envs e && (is_empty to_environment || e == to_environment))
unfolding keep_requested
has_key-keep_requested to e [] = refl
has_key-keep_requested to e (env ∷ envs) = ground (
  arith,
  eq_iff env to,
  eq_iff env e,
  eq_iff e to,
  has_key-keep_requested to e envs,
  has_key-put_key e env (keep_requested to envs),
)

targets_of_type-build :
    (matches_pattern : String → String → Bool) (t : RadixPipelineType) (spec : RadixJobSpec)
    (ra : RadixApplication)
    → is_build_job t ≡ true
    → targets_of_type matches_pattern t spec ra ≡ build_targets matches_pattern spec ra
unfolding targets_of_type build_targets
targets_of_type-build m build spec ra h = refl
targets_of_type-build m build_deploy spec ra h = refl
targets_of_type-build m promote spec ra h = cc
targets_of_type-build m deploy spec ra h = cc
targets_of_type-build m apply_config spec ra h = cc
targets_of_type-build m other spec ra h = cc

-- A build job targets exactly the environments that its git ref selects, and of these only the one
-- that it asks for, if it asks for one; that one is no target if the git ref does not select it.
has_key-get_target_environments :
    (matches_pattern : String → String → Bool) (rj : RadixJob) (ra : RadixApplication) (e : String)
    → is_build_job rj.spec.pipeline_type ≡ true
    → has_key (get_target_environments matches_pattern rj ra) e ≡ (
        has_key
          (target_environments matches_pattern
            (get_git_ref_or_default rj.spec.build_spec)
            rj.spec.build_spec.git_ref_type
            ra.environments
            rj.spec.triggered_from_webhook).targets
          e
        && (is_empty rj.spec.build_spec.to_environment || e == rj.spec.build_spec.to_environment))
unfolding get_target_environments target_environments
has_key-get_target_environments matches_pattern rj ra e h =
    rw (targets_of_type-build matches_pattern rj.spec.pipeline_type rj.spec ra h)
      (has_key-keep_requested rj.spec.build_spec.to_environment e _)
