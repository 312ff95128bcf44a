-- ===== src/Deployment/Components/Assembly.antt =====
-- GetRadixComponentsForEnv of pkg/apis/deployment/radixcomponent.go.
use radix_operator.Prelude.{
  ℕ, String, Bool, false, ◌&&◌, Option, none, some, List, [], ◌∷◌, ◌==◌, some?, if◌then◌else◌,
}
use radix_operator.Scaling.Merge.{get_radix_common_component_horizontal_scaling}
use radix_operator.Deployment.Components.Types.{
  EnvVarsMap, EnvironmentConfig, RadixComponent, RadixApplication, DeployComponentImage,
  RadixDeployComponent, Built, ◌>>=◌, built, error, merge_failed, ◌>>=◌,
}
use radix_operator.Deployment.Components.Settings.{
  or_own, of_config, get_environment_specific_config_for_component, or_default, get_enabled,
  get_radix_common_component_health_checks, get_radix_common_component_node,
  get_radix_common_component_resources, get_radix_common_component_env_vars, get_image_path,
  get_radix_component_port, get_external_dns_alias, words_for_environment_config,
}
use radix_operator.Deployment.Components.KeyVaults.{get_azure_key_vault_secret_refs}

abbrev override_in : List RadixDeployComponent → String → Option ℕ
override_in [] name = none
override_in (c ∷ cs) name = if c.name == name then c.replicas_override else override_in cs name

-- The last component of the name is the one in the map.
unfoldable pub find_preserved : String → List RadixDeployComponent → Option RadixDeployComponent
find_preserved name [] = none
find_preserved name (c ∷ cs) =
    let later = find_preserved name cs in
    if some? later then later else if c.name == name then some c else none

-- What the function is called with, and what it calls.
pub record Build : Type 0 where
  pub application : RadixApplication
  pub current : List RadixDeployComponent
  pub env : String
  pub image_of : String → DeployComponentImage
  pub default_env_vars : EnvVarsMap
  pub preserved : List RadixDeployComponent
  pub default_issuer : String
  pub replace_tag : String → String → String
  pub is_positive : String → Bool
  pub merge_error : RadixComponent → Option EnvironmentConfig → Option String
  pub volume_mounts_error : RadixComponent → Option EnvironmentConfig → Option String

abbrev pub unless_merge_failed :
    Option String → Built RadixDeployComponent → Built RadixDeployComponent
unless_merge_failed none rest = rest
unless_merge_failed (some e) rest = error (merge_failed e)

-- The component with its image and its public port.
unfoldable pub assemble :
    Build → RadixComponent → Option EnvironmentConfig → String → String → RadixDeployComponent
unfolding get_radix_common_component_health_checks get_radix_common_component_node
    get_radix_common_component_resources get_radix_common_component_env_vars get_external_dns_alias
    get_azure_key_vault_secret_refs words_for_environment_config
    get_radix_common_component_horizontal_scaling
assemble b c config image port = record {
  name = c.name;
  ports = c.ports;
  monitoring_config = c.monitoring_config;
  secrets = c.secrets;
  dns_app_alias =
      b.env == b.application.dns_app_alias.environment
      && c.name == b.application.dns_app_alias.component;
  replicas = or_own (of_config (λ k. k.replicas) config) c.replicas;
  replicas_override = override_in b.current c.name;
  image = image;
  node = get_radix_common_component_node b.is_positive c.node (of_config (λ k. some k.node) config);
  resources =
      get_radix_common_component_resources c.resources (of_config (λ k. some k.resources) config);
  environment_variables = get_radix_common_component_env_vars c config b.default_env_vars;
  always_pull_image_on_deploy =
      or_default
        (or_own (of_config (λ k. k.always_pull_image_on_deploy) config)
          c.always_pull_image_on_deploy)
        false;
  external_dns =
      get_external_dns_alias b.application.dns_external_alias c.name b.env b.default_issuer;
  secret_refs =
      get_azure_key_vault_secret_refs c.key_vaults (of_config (λ k. some k.key_vaults) config);
  health_checks =
      get_radix_common_component_health_checks c.health_checks
        (of_config (λ k. k.health_checks) config);
  public_port = port;
  read_only_file_system =
      or_own (of_config (λ k. k.read_only_file_system) config) c.read_only_file_system;
  monitoring = or_default (or_own (of_config (λ k. k.monitoring) config) c.monitoring) false;
  horizontal_scaling =
      get_radix_common_component_horizontal_scaling c.horizontal_scaling
        (of_config (λ k. k.horizontal_scaling) config);
  runtime = (b.image_of c.name).runtime;
  command = words_for_environment_config (λ k. k.command) config c.command;
  args = words_for_environment_config (λ k. k.args) config c.args;
  run_as_user = or_own (of_config (λ k. k.run_as_user) config) c.run_as_user;
}

-- A component that is not preserved.
unfoldable pub build_component :
    Build → RadixComponent → Option EnvironmentConfig → Built RadixDeployComponent
unfolding get_image_path get_radix_component_port assemble
build_component b c config = unless_merge_failed (b.merge_error c config) (
    get_image_path b.replace_tag c.name (b.image_of c.name) c.image_tag_name config >>= λ image.
    get_radix_component_port c >>= λ port.
    unless_merge_failed (b.volume_mounts_error c config) (built (assemble b c config image port)))

abbrev pub prepend :
    RadixDeployComponent → Built (List RadixDeployComponent) → Built (List RadixDeployComponent)
prepend d (built ds) = built (d ∷ ds)
prepend d (error e) = error e

-- `preservingDeployComponentMap[name]`, or else what is built.
abbrev pub preserved_or :
    Option RadixDeployComponent → Built RadixDeployComponent → Built RadixDeployComponent
preserved_or none b = b
preserved_or (some d) b = built d

-- The component of the deployment, preserved or built.
unfoldable pub deploy_component :
    Build → RadixComponent → Option EnvironmentConfig → Built RadixDeployComponent
deploy_component b c config =
    preserved_or (find_preserved c.name b.preserved) (build_component b c config)

unfoldable pub deploy_components : Build → List RadixComponent → Built (List RadixDeployComponent)
unfolding get_environment_specific_config_for_component get_enabled deploy_component
deploy_components b [] = built []
deploy_components b (c ∷ cs) =
    let config = get_environment_specific_config_for_component c b.env in
    let rest = deploy_components b cs in
    let this = deploy_component b c config >>= λ d. prepend d rest in
    if get_enabled c config then this else rest

unfoldable pub get_radix_components_for_env : Build → Built (List RadixDeployComponent)
unfolding deploy_components
get_radix_components_for_env b = deploy_components b b.application.components
