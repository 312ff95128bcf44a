-- ===== src/Scaling/Validation.antt =====
-- `validateHorizontalScalingPart` and what it calls, of
-- webhook/validation/radixapplication/validate_horizontalscaling.go. A joined error is the list of the errors that it joins, without the words
-- before them. `is_keda_cron` stands for `validateKedaCronSchedule`, a parse by the cron library.
use radix_operator.Prelude.{
  ℕ, zero, suc, String, Bool, true, false, not, ◌&&◌, ◌||◌, ◌+◌, Option, none, some, List, [], ◌∷◌,
  ◌==◌, any, some?, is_empty, ltb, nat_beq, report, concat_map, join, if◌then◌else◌,
}
use radix_operator.Scaling.Types.{
  CronTrigger, ScalingAuthentication, AzureServiceBusTrigger, CheckpointStrategy,
  AzureEventHubTrigger, ScalingTrigger, HorizontalScaling, normalize_config,
}

pub data ScalingError : Type 0 where
  combining_triggers_with_resources max_replicas_not_set min_greater_than_max : ScalingError
  invalid_minimum_replicas duplicate_trigger_name invalid_trigger_definition : ScalingError
  no_definition_in_trigger more_than_one_definition_in_trigger : ScalingError

unfoldable pub validate_azure_service_bus_trigger : AzureServiceBusTrigger → List ScalingError
validate_azure_service_bus_trigger t = join (
    report (is_empty t.namespace) invalid_trigger_definition
    ∷ report
        (not (is_empty t.queue_name)
          && (not (is_empty t.topic_name) || not (is_empty t.subscription_name)))
        invalid_trigger_definition
    ∷ report (is_empty t.queue_name && (is_empty t.topic_name || is_empty t.subscription_name))
        invalid_trigger_definition
    ∷ report (is_empty t.authentication.client_id && is_empty t.connection_from_env)
        invalid_trigger_definition
    ∷ [])

uses_workload_identity : Option ScalingAuthentication → Bool
uses_workload_identity none = false
uses_workload_identity (some a) = not (is_empty a.client_id)

is_azure_function : CheckpointStrategy → Bool
is_azure_function CheckpointStrategy.azure_function = true
is_azure_function _ = false

is_valid_azure_event_hub_trigger_checkpoints : CheckpointStrategy → Bool
is_valid_azure_event_hub_trigger_checkpoints CheckpointStrategy.other = false
is_valid_azure_event_hub_trigger_checkpoints _ = true

unfoldable pub validate_azure_event_hub_trigger : AzureEventHubTrigger → List ScalingError
unfolding uses_workload_identity is_azure_function is_valid_azure_event_hub_trigger_checkpoints
validate_azure_event_hub_trigger t = join (
    (if uses_workload_identity t.authentication
      then join (
          report (is_empty t.event_hub_namespace && is_empty t.event_hub_namespace_from_env)
            invalid_trigger_definition
          ∷ report (is_empty t.event_hub_name && is_empty t.event_hub_name_from_env)
              invalid_trigger_definition
          ∷ report (is_empty t.storage_account) invalid_trigger_definition
          ∷ [])
      else join (
          report (is_empty t.event_hub_connection_from_env) invalid_trigger_definition
          ∷ report (is_empty t.storage_connection_from_env) invalid_trigger_definition
          ∷ []))
    ∷ report (is_empty t.container && not (is_azure_function t.checkpoint_strategy))
        invalid_trigger_definition
    ∷ report (not (is_valid_azure_event_hub_trigger_checkpoints t.checkpoint_strategy))
        invalid_trigger_definition
    ∷ [])

-- The check of a part of a trigger that is set.
abbrev if_set {ℓ} : {A : Type ℓ} → Option A → (A → List ScalingError) → List ScalingError
if_set none check = []
if_set (some a) check = check a

abbrev count {ℓ} : {A : Type ℓ} → Option A → ℕ
count none = 0
count (some a) = 1

-- The variable `definitions` at the end of the loop's body.
unfoldable pub definitions : ScalingTrigger → ℕ
definitions t =
    count t.cpu
    + count t.memory
    + count t.cron
    + count t.azure_service_bus
    + count t.azure_event_hub

unfoldable pub one_definition : ℕ → List ScalingError
one_definition zero = no_definition_in_trigger ∷ []
one_definition (suc n) = report (not (nat_beq n 0)) more_than_one_definition_in_trigger

-- The loop of `validateUniqueTriggerNames`, with the names so far, the last one first.
unfoldable pub unique_names : List String → List ScalingTrigger → List ScalingError
unique_names names [] = []
unique_names names (t ∷ ts) = elim (any (λ name. name == t.name) names) [
  | true ↦ duplicate_trigger_name ∷ unique_names names ts
  | false ↦ unique_names (t.name ∷ names) ts
]

unfoldable pub validate_unique_trigger_names : List ScalingTrigger → List ScalingError
unfolding unique_names
validate_unique_trigger_names = unique_names []

unfoldable pub has_non_resource_type_triggers : List ScalingTrigger → Bool
has_non_resource_type_triggers =
    any (λ t. some? t.cron || some? t.azure_service_bus || some? t.azure_event_hub)

-- The tests of the minimum; `NormalizeConfig` always sets it.
unfoldable pub validate_min_replicas : Option ℕ → HorizontalScaling → List ScalingError
unfolding has_non_resource_type_triggers
validate_min_replicas none c = []
validate_min_replicas (some min) c = join (
    report (ltb c.max_replicas min) min_greater_than_max
    ∷ report (nat_beq min 0 && not (has_non_resource_type_triggers c.triggers))
        invalid_minimum_replicas
    ∷ [])

unfoldable pub is_nonempty : List ScalingTrigger → Bool
is_nonempty [] = false
is_nonempty (t ∷ ts) = true

module _ (is_keda_cron : String → Bool) where
  -- One of the two schedules of a cron trigger.
  validate_keda_cron_schedule : String → List ScalingError
  validate_keda_cron_schedule schedule =
      if is_empty schedule
      then invalid_trigger_definition ∷ []
      else report (not (is_keda_cron schedule)) invalid_trigger_definition

  unfoldable pub validate_cron_trigger : CronTrigger → List ScalingError
  unfolding validate_keda_cron_schedule
  validate_cron_trigger c = join (
      validate_keda_cron_schedule c.start
      ∷ validate_keda_cron_schedule c.end
      ∷ report (is_empty c.timezone) invalid_trigger_definition
      ∷ report (ltb c.desired_replicas 1) invalid_trigger_definition
      ∷ [])

  unfoldable pub validate_trigger : ScalingTrigger → List ScalingError
  unfolding validate_cron_trigger validate_azure_service_bus_trigger
      validate_azure_event_hub_trigger one_definition definitions
  validate_trigger t = join (
      if_set t.cpu (λ value. report (nat_beq value 0) invalid_trigger_definition)
      ∷ if_set t.memory (λ value. report (nat_beq value 0) invalid_trigger_definition)
      ∷ if_set t.cron validate_cron_trigger
      ∷ if_set t.azure_service_bus validate_azure_service_bus_trigger
      ∷ if_set t.azure_event_hub validate_azure_event_hub_trigger
      ∷ one_definition (definitions t)
      ∷ [])

  unfoldable pub validate_trigger_definition : List ScalingTrigger → List ScalingError
  unfolding validate_trigger
  validate_trigger_definition = concat_map validate_trigger

  unfoldable pub validate_normalized : HorizontalScaling → List ScalingError
  unfolding validate_min_replicas validate_trigger_definition validate_unique_trigger_names
  validate_normalized c = join (
      report (nat_beq c.max_replicas 0) max_replicas_not_set
      ∷ validate_min_replicas c.min_replicas c
      ∷ validate_trigger_definition c.triggers
      ∷ validate_unique_trigger_names c.triggers
      ∷ [])

  unfoldable pub validate_horizontal_scaling_part : HorizontalScaling → List ScalingError
  unfolding is_nonempty validate_normalized normalize_config
  validate_horizontal_scaling_part c = join (
      report (some? c.resources && is_nonempty c.triggers) combining_triggers_with_resources
      ∷ validate_normalized (normalize_config c)
      ∷ [])
