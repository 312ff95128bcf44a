-- ===== src/Scaling/Merge.antt =====
-- `getRadixCommonComponentHorizontalScaling` of pkg/apis/deployment/radixcomponent.go.
pub mod Normal
pub mod Bounds
use radix_operator.Prelude.{
  ℕ, Bool, true, false, ◌&&◌, ◌||◌, Option, none, some, List, [], ◌∷◌, some?, ltb, if◌then◌else◌,
}
use radix_operator.Scaling.Types.{ScalingTrigger, HorizontalScaling, normalize_config}
use radix_operator.Scaling.Validation.{is_nonempty}

-- `if e != nil { c = e }`
unfoldable pub override : Option ℕ → Option ℕ → Option ℕ
override none c = c
override (some e) c = some e

-- `minReplicas == nil || *minReplicas < max`
unfoldable pub below : Option ℕ → ℕ → Bool
below none max = true
below (some min) max = ltb min max

-- The configuration of an environment over that of its component.
unfoldable pub merge_scaling : HorizontalScaling → HorizontalScaling → HorizontalScaling
unfolding normalize_config override below is_nonempty
merge_scaling component environment =
    let final = normalize_config component in
    let min = override environment.min_replicas final.min_replicas in
    record {
      min_replicas = min;
      max_replicas =
          if ltb 0 environment.max_replicas && below min environment.max_replicas
          then environment.max_replicas
          else final.max_replicas;
      cooldown_period = override environment.cooldown_period final.cooldown_period;
      polling_interval = override environment.polling_interval final.polling_interval;
      resources = final.resources;
      triggers =
          if is_nonempty environment.triggers || some? environment.resources
          then (normalize_config environment).triggers
          else final.triggers;
    }

-- The second argument is none if the component has no configuration for the environment, or that
-- one has no horizontal scaling.
unfoldable pub get_radix_common_component_horizontal_scaling :
    Option HorizontalScaling → Option HorizontalScaling → Option HorizontalScaling
unfolding normalize_config merge_scaling
get_radix_common_component_horizontal_scaling none none = none
get_radix_common_component_horizontal_scaling (some c) none = some (normalize_config c)
get_radix_common_component_horizontal_scaling none (some e) = some (normalize_config e)
get_radix_common_component_horizontal_scaling (some c) (some e) = some (merge_scaling c e)
