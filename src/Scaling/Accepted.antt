-- ===== src/Scaling/Accepted.antt =====
-- What an accepted configuration of the horizontal scaling has:
-- webhook/validation/radixapplication/validate_horizontalscaling.go.
use radix_operator.Prelude.{
  inl, inr, ℕ, zero, suc, ◌≤◌, String, Bool, true, false, ◌≡◌, refl, List, [], ◌∷◌, map, ◌==◌, any,
  All, All-intro, Distinct, nat_beq, ltb, report-nil, join-nil, concat_map-nil, arith, Bool-cases,
}
use radix_operator.Scaling.Types.{ScalingTrigger, HorizontalScaling, normalize_config, or_one}
use radix_operator.Scaling.Validation.{
  definitions, one_definition, validate_trigger, validate_trigger_definition, unique_names,
  validate_unique_trigger_names, validate_min_replicas, validate_normalized,
  validate_horizontal_scaling_part, min_greater_than_max, max_replicas_not_set,
  duplicate_trigger_name,
}

one_definition-nil : (n : ℕ) → one_definition n ≡ [] → n ≡ 1
unfolding one_definition
one_definition-nil zero h = cc
one_definition-nil (suc zero) h = refl
one_definition-nil (suc (suc n)) h = ground arith

other_names :
    (name : String) (names : List String) (ts : List ScalingTrigger)
    → All (λ t. any (λ k. k == t.name) (name ∷ names) ≡ false) ts
    → (any (λ y. name == y) (map (λ t. t.name) ts) ≡ false)
      × All (λ t. any (λ k. k == t.name) names ≡ false) ts
other_names name names [] h = (refl, h)
other_names name names (t ∷ ts) (h, hs) =
    let ih = other_names name names ts hs in (ground arith, (ground arith, ih.1))

unique_names-Distinct :
    (names : List String) (ts : List ScalingTrigger)
    → unique_names names ts ≡ []
    → Distinct (map (λ t. t.name) ts) × All (λ t. any (λ k. k == t.name) names ≡ false) ts
unfolding unique_names
unique_names-Distinct names [] h = (tt, tt)
unique_names-Distinct names (t ∷ ts) h = elim (Bool-cases (any (λ name. name == t.name) names)) [
  | inl again ↦
      let h' : (elim (any (λ name. name == t.name) names) [
        | true ↦ duplicate_trigger_name ∷ unique_names names ts
        | false ↦ unique_names (t.name ∷ names) ts
      ])
          ≡ [] =
        h in
      let e = (rw again at h') in cc
  | inr fresh ↦
      let h' : (elim (any (λ name. name == t.name) names) [
        | true ↦ duplicate_trigger_name ∷ unique_names names ts
        | false ↦ unique_names (t.name ∷ names) ts
      ])
          ≡ [] =
        h in
      let (rest, apart) = unique_names-Distinct (t.name ∷ names) ts (rw fresh at h') in
      let (own, others) = other_names t.name names ts apart in ((own, rest), (fresh, others))
]

-- The bounds of an accepted configuration, a missing minimum being 1.
pub accepted_bounds :
    (is_keda_cron : String → Bool) (c : HorizontalScaling)
    → validate_horizontal_scaling_part is_keda_cron c ≡ []
    → (1 ≤ c.max_replicas) × (or_one c.min_replicas ≤ c.max_replicas)
unfolding validate_horizontal_scaling_part validate_normalized normalize_config
    validate_min_replicas
accepted_bounds k c h =
    let checks = join-nil _ (join-nil _ h).1.0 in
    let not_zero = report-nil (nat_beq c.max_replicas 0) max_replicas_not_set checks.0 in
    let ordered =
      report-nil (ltb c.max_replicas (or_one c.min_replicas)) min_greater_than_max
        (join-nil _ checks.1.0).0 in
    (ground arith, ground arith)

trigger-definitions :
    (is_keda_cron : String → Bool) (t : ScalingTrigger)
    → validate_trigger is_keda_cron t ≡ []
    → definitions t ≡ 1
unfolding validate_trigger
trigger-definitions k t h = one_definition-nil (definitions t) (join-nil _ h).1.1.1.1.1.0

-- If a configuration is accepted, then after `NormalizeConfig` each of its triggers sets exactly
-- one of its five parts, and no two triggers have a name in common.
accepted_triggers :
    (is_keda_cron : String → Bool) (c : HorizontalScaling)
    → validate_horizontal_scaling_part is_keda_cron c ≡ []
    → All (λ t. definitions t ≡ 1) (normalize_config c).triggers
      × Distinct (map (λ t. t.name) (normalize_config c).triggers)
unfolding validate_horizontal_scaling_part validate_normalized validate_trigger_definition
    validate_unique_trigger_names
accepted_triggers k c h =
    let checks = (join-nil _ (join-nil _ h).1.0).1.1 in
    let ts = (normalize_config c).triggers in
    (
      All-intro (λ t. definitions t ≡ 1) ts
          (λ t m. trigger-definitions k t (concat_map-nil (validate_trigger k) ts checks.0 m)),
      (unique_names-Distinct [] ts checks.1.0).0,
    )
