-- ===== src/Scaling/Merge/Normal.antt =====
-- The result of `getRadixCommonComponentHorizontalScaling` of pkg/apis/deployment/radixcomponent.go
-- and `NormalizeConfig`.
use radix_operator.Prelude.{
  ℕ, Bool, ◌||◌, true, false, ◌≡◌, refl, ap, ap₂, Option, none, some, List, [], ◌∷◌, some?,
  if◌then◌else◌,
}
use radix_operator.Scaling.Types.{
  ScalingTrigger, HorizontalScaling, migrate_resources, or_default_trigger, normalize_config,
  or_one,
}
use radix_operator.Scaling.Validation.{is_nonempty}
use radix_operator.Scaling.Merge.{
  override, merge_scaling, get_radix_common_component_horizontal_scaling,
}

or_default_trigger_idem :
    (ts : List ScalingTrigger)
    → or_default_trigger (migrate_resources none (or_default_trigger ts)) ≡ or_default_trigger ts
unfolding or_default_trigger migrate_resources
or_default_trigger_idem [] = refl
or_default_trigger_idem (t ∷ ts) = refl

-- The triggers of one of two configurations after `NormalizeConfig`.
chosen_triggers :
    (b : Bool) (c e : HorizontalScaling)
    → let ts = if b then (normalize_config e).triggers else (normalize_config c).triggers in
      or_default_trigger (migrate_resources none ts) ≡ ts
unfolding normalize_config
chosen_triggers true c e = or_default_trigger_idem (migrate_resources e.resources e.triggers)
chosen_triggers false c e = or_default_trigger_idem (migrate_resources c.resources c.triggers)

override-set : (e : Option ℕ) (n : ℕ) → some (or_one (override e (some n))) ≡ override e (some n)
unfolding override
override-set none n = refl
override-set (some m) n = refl

normalize_config_idem :
    (c : HorizontalScaling) → normalize_config (normalize_config c) ≡ normalize_config c
unfolding normalize_config
normalize_config_idem c =
    ap
      (λ ts. record c {
        min_replicas = some (or_one c.min_replicas);
        resources = none;
        triggers = ts;
      })
      (or_default_trigger_idem (migrate_resources c.resources c.triggers))

normalize_config-merge_scaling :
    (c e : HorizontalScaling) → normalize_config (merge_scaling c e) ≡ merge_scaling c e
unfolding normalize_config merge_scaling
normalize_config-merge_scaling c e =
    ap₂ (λ min ts. record (merge_scaling c e) { min_replicas = min; triggers = ts })
      (override-set e.min_replicas (or_one c.min_replicas))
      (chosen_triggers (is_nonempty e.triggers || some? e.resources) c e)

-- `NormalizeConfig` leaves the horizontal scaling of a component in an environment as it is,
-- whether it is set for the component, for the environment or for both.
pub normalize_config-merged :
    (component environment : Option HorizontalScaling) (final : HorizontalScaling)
    → get_radix_common_component_horizontal_scaling component environment ≡ some final
    → normalize_config final ≡ final
unfolding get_radix_common_component_horizontal_scaling
normalize_config-merged none none f h = cc
normalize_config-merged (some c) none f h =
    let e : normalize_config c ≡ f = cc in rw (← e) (normalize_config_idem c)
normalize_config-merged none (some c) f h =
    let e : normalize_config c ≡ f = cc in rw (← e) (normalize_config_idem c)
normalize_config-merged (some c) (some d) f h =
    let e : merge_scaling c d ≡ f = cc in rw (← e) (normalize_config-merge_scaling c d)
