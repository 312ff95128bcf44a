-- ===== src/Scaling/Types.antt =====
-- The configuration of the horizontal scaling of pkg/apis/radix/v1/radixhorizontalscalingtypes.go,
-- with `NormalizeConfig`. The numbers have a minimum of 0 or more in the schema of the resource.
use radix_operator.Prelude.{ℕ, String, Option, none, some, List, [], ◌∷◌, ◌++◌}

pub record CronTrigger : Type 0 where
  pub start : String
  pub end : String
  pub timezone : String
  pub desired_replicas : ℕ

-- `client_id` is the field `Identity.Azure.ClientId`.
pub record ScalingAuthentication : Type 0 where
  pub client_id : String

pub record AzureServiceBusTrigger : Type 0 where
  pub namespace : String
  pub queue_name : String
  pub topic_name : String
  pub subscription_name : String
  pub connection_from_env : String
  pub authentication : ScalingAuthentication

-- The values of the checkpoint strategy; `other` is a text that is none of them.
pub data CheckpointStrategy : Type 0 where
  unset go_sdk blob_metadata azure_function other : CheckpointStrategy

pub record AzureEventHubTrigger : Type 0 where
  pub event_hub_namespace : String
  pub event_hub_namespace_from_env : String
  pub event_hub_name : String
  pub event_hub_name_from_env : String
  pub event_hub_connection_from_env : String
  pub storage_connection_from_env : String
  pub storage_account : String
  pub container : String
  pub checkpoint_strategy : CheckpointStrategy
  pub authentication : Option ScalingAuthentication

-- `cpu` and `memory` are the values of the triggers.
pub record ScalingTrigger : Type 0 where
  pub name : String
  pub cpu : Option ℕ
  pub memory : Option ℕ
  pub cron : Option CronTrigger
  pub azure_service_bus : Option AzureServiceBusTrigger
  pub azure_event_hub : Option AzureEventHubTrigger

-- `cpu` and `memory` are none if the resource or its average utilization is nil.
pub record ScalingResources : Type 0 where
  pub cpu : Option ℕ
  pub memory : Option ℕ

pub record HorizontalScaling : Type 0 where
  pub min_replicas : Option ℕ
  pub max_replicas : ℕ
  pub polling_interval : Option ℕ
  pub cooldown_period : Option ℕ
  pub resources : Option ScalingResources
  pub triggers : List ScalingTrigger

abbrev pub cpu_trigger : String → ℕ → ScalingTrigger
cpu_trigger name value = record {
  name = name;
  cpu = some value;
  memory = none;
  cron = none;
  azure_service_bus = none;
  azure_event_hub = none;
}

abbrev pub memory_trigger : String → ℕ → ScalingTrigger
memory_trigger name value = record {
  name = name;
  cpu = none;
  memory = some value;
  cron = none;
  azure_service_bus = none;
  azure_event_hub = none;
}

abbrev pub default_target_cpu_utilization_percentage : ℕ
default_target_cpu_utilization_percentage = 80

abbrev trigger_of : Option ℕ → (ℕ → ScalingTrigger) → List ScalingTrigger
trigger_of none make = []
trigger_of (some value) make = make value ∷ []

-- The deprecated resources as triggers, if there are no triggers.
unfoldable pub migrate_resources :
    Option ScalingResources → List ScalingTrigger → List ScalingTrigger
migrate_resources (some r) [] =
    trigger_of r.cpu (cpu_trigger "cpu") ++ trigger_of r.memory (memory_trigger "memory")
migrate_resources resources triggers = triggers

unfoldable pub or_default_trigger : List ScalingTrigger → List ScalingTrigger
or_default_trigger [] = cpu_trigger "default-cpu" default_target_cpu_utilization_percentage ∷ []
or_default_trigger (t ∷ ts) = t ∷ ts

abbrev pub or_one : Option ℕ → ℕ
or_one none = 1
or_one (some n) = n

unfoldable pub normalize_config : HorizontalScaling → HorizontalScaling
unfolding migrate_resources or_default_trigger
normalize_config c = record c {
  min_replicas = some (or_one c.min_replicas);
  resources = none;
  triggers = or_default_trigger (migrate_resources c.resources c.triggers);
}
