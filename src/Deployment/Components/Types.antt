-- ===== src/Deployment/Components/Types.antt =====
-- The data of the components of an application, pkg/apis/radix/v1/radixapptypes.go, and of a
-- deployment, radixdeploytypes.go, and the results of building the latter.
use radix_operator.Prelude.{ℕ, String, Bool, Option, List}
use radix_operator.Scaling.Types.{HorizontalScaling}
use radix_operator.Webhook.Types.{ComponentPort, ResourceRequirements, Runtime, HealthChecks}
use radix_operator.Webhook.KeyVaults.{AzureKeyVault}

-- The variables, a map from names to values.
abbrev pub EnvVarsMap : Type 0
EnvVarsMap = List (String × String)

pub record MonitoringConfig : Type 0 where
  pub port_name : String
  pub path : String

pub record RadixNode : Type 0 where
  pub gpu : String
  pub gpu_count : String

pub record EnvironmentConfig : Type 0 where
  pub environment : String
  pub enabled : Option Bool
  pub replicas : Option ℕ
  pub health_checks : Option HealthChecks
  pub read_only_file_system : Option Bool
  pub run_as_user : Option ℕ
  pub monitoring : Option Bool
  pub horizontal_scaling : Option HorizontalScaling
  pub always_pull_image_on_deploy : Option Bool
  pub variables : EnvVarsMap
  pub resources : ResourceRequirements
  pub node : RadixNode
  pub image_tag_name : String
  pub command : Option (List String)
  pub args : Option (List String)
  pub key_vaults : List AzureKeyVault

pub record RadixComponent : Type 0 where
  pub name : String
  pub public : Bool
  pub public_port : String
  pub ports : List ComponentPort
  pub enabled : Option Bool
  pub replicas : Option ℕ
  pub health_checks : Option HealthChecks
  pub read_only_file_system : Option Bool
  pub run_as_user : Option ℕ
  pub monitoring : Option Bool
  pub horizontal_scaling : Option HorizontalScaling
  pub always_pull_image_on_deploy : Option Bool
  pub variables : EnvVarsMap
  pub resources : ResourceRequirements
  pub node : RadixNode
  pub image_tag_name : String
  pub command : List String
  pub args : List String
  pub monitoring_config : MonitoringConfig
  pub secrets : List String
  pub key_vaults : List AzureKeyVault
  pub environment_config : List EnvironmentConfig

-- The issuer is none without `CertificateAutomation`.
pub record ExternalAlias : Type 0 where
  pub alias : String
  pub environment : String
  pub component : String
  pub use_certificate_automation : Bool
  pub issuer : Option String

pub record AppAlias : Type 0 where
  pub environment : String
  pub component : String

pub record RadixApplication : Type 0 where
  pub components : List RadixComponent
  pub dns_app_alias : AppAlias
  pub dns_external_alias : List ExternalAlias

pub record DeployComponentImage : Type 0 where
  pub image_path : String
  pub image_tag_name : String
  pub runtime : Option Runtime
  pub build : Bool

pub record RadixDeployExternalDns : Type 0 where
  pub fqdn : String
  pub use_certificate_automation : Bool
  pub issuer : Option String

pub record RadixDeployComponent : Type 0 where
  pub name : String
  pub ports : List ComponentPort
  pub monitoring_config : MonitoringConfig
  pub secrets : List String
  pub dns_app_alias : Bool
  pub replicas : Option ℕ
  pub replicas_override : Option ℕ
  pub image : String
  pub node : RadixNode
  pub resources : ResourceRequirements
  pub environment_variables : EnvVarsMap
  pub always_pull_image_on_deploy : Bool
  pub external_dns : List RadixDeployExternalDns
  pub secret_refs : List AzureKeyVault
  pub health_checks : Option HealthChecks
  pub public_port : String
  pub read_only_file_system : Option Bool
  pub monitoring : Bool
  pub horizontal_scaling : Option HorizontalScaling
  pub runtime : Option Runtime
  pub command : List String
  pub args : List String
  pub run_as_user : Option ℕ

-- `panic` is an index out of range.
pub data BuildError : Type 0 where
  merge_failed : String → BuildError
  missing_image_tag_name : String → BuildError
  panic : BuildError

pub data Built {ℓ} (A : Type ℓ) : Type ℓ where
  built : A → Built A
  error : BuildError → Built A

infixl 5 ◌>>=◌
abbrev pub ◌>>=◌ {ℓ κ} : {A : Type ℓ} {B : Type κ} → Built A → (A → Built B) → Built B
built a >>= f = f a
error e >>= f = error e
