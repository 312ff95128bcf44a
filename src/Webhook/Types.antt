-- ===== src/Webhook/Types.antt =====
-- The parts of a RadixApplication of pkg/apis/radix/v1/radixapptypes.go that the validation of
-- webhook/validation/radixapplication reads, and its errors and warnings, of errors.go. An error
-- is its sentinel, without the words before it. The numbers are not negative, as the schema of the
-- resource demands.
use radix_operator.Prelude.{ℕ, String, Bool, true, Option, none, some, List, equal_fold, find_first}
use radix_operator.Scaling.Types.{HorizontalScaling}
use radix_operator.Webhook.VolumeMounts.{VolumeMount}

pub record ComponentPort : Type 0 where
  pub name : String
  pub port : ℕ

-- The entries of the maps of `ResourceRequirements`.
pub record ResourceRequirements : Type 0 where
  pub limits : List (String × String)
  pub requests : List (String × String)

pub record Runtime : Type 0 where
  pub architecture : String
  pub node_type : Option String

-- Which of the handlers of a probe are set.
pub record Probe : Type 0 where
  pub http_get : Bool
  pub tcp_socket : Bool
  pub exec : Bool
  pub grpc : Bool
  pub success_threshold : ℕ

pub record HealthChecks : Type 0 where
  pub liveness_probe : Option Probe
  pub readiness_probe : Option Probe
  pub startup_probe : Option Probe

-- `client_id` is that of the Azure identity, empty without one.
pub record EnvironmentConfig : Type 0 where
  pub environment : String
  pub enabled : Option Bool
  pub replicas : Option ℕ
  pub resources : ResourceRequirements
  pub image_tag_name : String
  pub runtime : Option Runtime
  pub health_checks : Option HealthChecks
  pub client_id : String
  pub horizontal_scaling : Option HorizontalScaling
  pub volume_mounts : List VolumeMount

pub record RadixComponent : Type 0 where
  pub name : String
  pub image : String
  pub source_folder : String
  pub dockerfile_name : String
  pub public : Bool
  pub public_port : String
  pub ports : List ComponentPort
  pub enabled : Option Bool
  pub replicas : Option ℕ
  pub resources : ResourceRequirements
  pub monitoring : Option Bool
  pub monitoring_port_name : String
  pub runtime : Option Runtime
  pub health_checks : Option HealthChecks
  pub client_id : String
  pub horizontal_scaling : Option HorizontalScaling
  pub volume_mounts : List VolumeMount
  pub environment_config : List EnvironmentConfig

pub record JobEnvironmentConfig : Type 0 where
  pub environment : String
  pub client_id : String
  pub volume_mounts : List VolumeMount

pub record RadixJobComponent : Type 0 where
  pub name : String
  pub client_id : String
  pub volume_mounts : List VolumeMount
  pub environment_config : List JobEnvironmentConfig

pub record DnsAlias : Type 0 where
  pub alias : String
  pub environment : String
  pub component : String

pub record ExternalAlias : Type 0 where
  pub alias : String
  pub environment : String
  pub component : String

-- `environments` are the names of the environments.
pub record Application : Type 0 where
  pub name : String
  pub environments : List String
  pub components : List RadixComponent
  pub jobs : List RadixJobComponent
  pub dns_alias : List DnsAlias
  pub dns_app_alias : DnsAlias
  pub dns_external_alias : List ExternalAlias

pub data ValidationError : Type 0 where
  environment_referenced_by_component_does_not_exist component_name_reserved_suffix :
      ValidationError
  public_port_not_found monitoring_no_ports_defined monitoring_named_port_not_found :
      ValidationError
  runtime_architecture_with_node_type invalid_number_of_replicas : ValidationError
  success_threshold_must_be_one invalid_health_check_probe : ValidationError
  invalid_resource_format cpu_resource_requirement_format invalid_resource_type : ValidationError
  requested_resource_exceeds_limit : ValidationError
  dns_alias_environment_not_defined dns_alias_component_not_defined_or_disabled : ValidationError
  dns_alias_component_is_not_marked_as_public external_alias_environment_not_defined :
      ValidationError
  external_alias_component_not_defined external_alias_component_not_marked_as_public :
      ValidationError
  dns_alias_already_used_by_another_application : ValidationError
  dns_alias_reserved_for_radix_platform_application : ValidationError
  dns_alias_reserved_for_radix_platform_service : ValidationError

pub data Warning : Type 0 where
  public_image_with_source_or_dockerfile memory_resource_below_recommended_minimum : Warning
  component_with_dynamic_tag_requires_image_tag : Warning

-- `component.getEnabled()`
component_enabled : Option Bool → Bool
component_enabled none = true
component_enabled (some b) = b

by_config : RadixComponent → Option EnvironmentConfig → Option Bool → Bool
unfolding component_enabled
by_config c (some config) (some b) = b
by_config c config enabled = component_enabled c.enabled

config_enabled : Option EnvironmentConfig → Option Bool
config_enabled none = none
config_enabled (some config) = config.enabled

unfoldable pub get_enabled_for_environment_config : RadixComponent → Option EnvironmentConfig → Bool
unfolding by_config config_enabled
get_enabled_for_environment_config c config = by_config c config (config_enabled config)

unfoldable pub get_environment_config_by_name :
    String → List EnvironmentConfig → Option EnvironmentConfig
get_environment_config_by_name environment =
    find_first (λ config. equal_fold environment config.environment)
