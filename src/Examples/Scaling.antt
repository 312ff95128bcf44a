-- ===== src/Examples/Scaling.antt =====
-- A component with a minimum of 1 and a maximum of 2 replicas, in an environment with 5 of each.
use radix_operator.Prelude.{String, Bool, true, ◌≡◌, refl, none, some, [], ◌∷◌}
use radix_operator.Scaling.Types.{
  HorizontalScaling, cpu_trigger, memory_trigger, normalize_config, or_one,
}
use radix_operator.Scaling.Merge.{merge_scaling, get_radix_common_component_horizontal_scaling}
use radix_operator.Scaling.Merge.Normal.{normalize_config-merged}
use radix_operator.Scaling.Replicas.{pos, get_deploy_component_replicas}

abbrev pub is_cron : String → Bool
is_cron schedule = true

abbrev pub component : HorizontalScaling
component = record {
  min_replicas = some 1;
  max_replicas = 2;
  polling_interval = none;
  cooldown_period = some 300;
  resources = none;
  triggers = cpu_trigger "cpu" 70 ∷ memory_trigger "memory" 80 ∷ [];
}

abbrev pub environment : HorizontalScaling
environment = record {
  min_replicas = some 5;
  max_replicas = 5;
  polling_interval = none;
  cooldown_period = none;
  resources = none;
  triggers = [];
}

normalize_config-merged_example :
    normalize_config (merge_scaling component environment) ≡ merge_scaling component environment
unfolding get_radix_common_component_horizontal_scaling
normalize_config-merged_example =
    normalize_config-merged (some component) (some environment)
      (merge_scaling component environment) refl

-- The bounds of the merge are 5 and 2.
merged_min : or_one (merge_scaling component environment).min_replicas ≡ 5
unfolding merge_scaling
merged_min = refl

merged_max : (merge_scaling component environment).max_replicas ≡ 2
unfolding merge_scaling
merged_max = refl

-- The replicas are brought between the bounds 1 and 2.
replicas_within_bounds :
    get_deploy_component_replicas
      (record { replicas_override = none; replicas = some 9; horizontal_scaling = some component })
    ≡ pos 2
unfolding get_deploy_component_replicas
replicas_within_bounds = refl
