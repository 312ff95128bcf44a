-- ===== src/Examples/Components.antt =====
-- A deployment of an application with two components, one of which is preserved.
use radix_operator.Prelude.{
  String, Bool, true, false, ◌≡◌, refl, none, some, List, [], ◌∷◌, map, find_all, Memᴰ, Option,
}
use radix_operator.Webhook.Types.{ResourceRequirements}
use radix_operator.Deployment.Components.Types.{
  RadixComponent, EnvironmentConfig, RadixDeployComponent, RadixNode, EnvVarsMap,
}
use radix_operator.Deployment.Components.Assembly.{
  Build, get_radix_components_for_env, find_preserved, deploy_component, build_component,
}
use radix_operator.Deployment.Components.Settings.{
  get_radix_common_component_env_vars, lookup_variable, own_variables, or_own,
}
use radix_operator.Deployment.Components.Variables.{lookup-get_radix_common_component_env_vars}
use radix_operator.Deployment.Components.Preserved.{
  get_radix_components_for_env-Deploys, is_deployed,
}

abbrev no_node : RadixNode
no_node = record { gpu = ""; gpu_count = "" }

abbrev no_resources : ResourceRequirements
no_resources = record { limits = []; requests = [] }

abbrev for_dev : EnvironmentConfig
for_dev = record {
  environment = "dev";
  enabled = none;
  replicas = some 2;
  health_checks = none;
  read_only_file_system = none;
  run_as_user = none;
  monitoring = some true;
  horizontal_scaling = none;
  always_pull_image_on_deploy = none;
  variables = ("LEVEL", "debug") ∷ [];
  resources = no_resources;
  node = no_node;
  image_tag_name = "";
  command = none;
  args = some ("--debug" ∷ []);
  key_vaults = [];
}

abbrev component : String → Option Bool → RadixComponent
component name enabled = record {
  name = name;
  public = true;
  public_port = "";
  ports = (record { name = "http"; port = 8080 }) ∷ [];
  enabled = enabled;
  replicas = some 1;
  health_checks = none;
  read_only_file_system = none;
  run_as_user = none;
  monitoring = none;
  horizontal_scaling = none;
  always_pull_image_on_deploy = none;
  variables = ("LEVEL", "info") ∷ ("REGION", "north") ∷ [];
  resources = no_resources;
  node = no_node;
  image_tag_name = "";
  command = "run" ∷ [];
  args = [];
  monitoring_config = record { port_name = "http"; path = "metrics" };
  secrets = [];
  key_vaults = [];
  environment_config = for_dev ∷ [];
}

abbrev deployed : String → String → EnvVarsMap → RadixDeployComponent
deployed name image variables = record {
  name = name;
  ports = (record { name = "http"; port = 8080 }) ∷ [];
  monitoring_config = record { port_name = "http"; path = "metrics" };
  secrets = [];
  dns_app_alias = false;
  replicas = some 2;
  replicas_override = none;
  image = image;
  node = no_node;
  resources = no_resources;
  environment_variables = variables;
  always_pull_image_on_deploy = false;
  external_dns = [];
  secret_refs = [];
  health_checks = none;
  public_port = "http";
  read_only_file_system = none;
  monitoring = true;
  horizontal_scaling = none;
  runtime = none;
  command = "run" ∷ [];
  args = "--debug" ∷ [];
  run_as_user = none;
}

abbrev build : Build
build = record {
  application = record {
    components = component "api" none ∷ component "old" (some false) ∷ component "web" none ∷ [];
    dns_app_alias = record { environment = "prod"; component = "web" };
    dns_external_alias = [];
  };
  current = [];
  env = "dev";
  image_of =
      λ name. record { image_path = "image:1"; image_tag_name = ""; runtime = none; build = true };
  default_env_vars = ("HASH", "abc") ∷ [];
  preserved = deployed "web" "image:0" [] ∷ [];
  default_issuer = "issuer";
  replace_tag = λ text tag. text;
  is_positive = λ _. false;
  merge_error = λ _ _. none;
  volume_mounts_error = λ _ _. none;
}

abbrev new_components : List RadixDeployComponent
new_components =
    deployed "api" "image:1" (("LEVEL", "debug") ∷ ("REGION", "north") ∷ ("HASH", "abc") ∷ [])
    ∷ deployed "web" "image:0" []
    ∷ []

get_radix_components_for_env-Deploys_example :
    (map (λ d. d.name) new_components
      ≡ map (λ c. c.name) (find_all (is_deployed build) build.application.components))
    × ((c : RadixComponent) (d : RadixDeployComponent)
        → Memᴰ c build.application.components
        → is_deployed build c ≡ true
        → find_preserved c.name build.preserved ≡ some d
        → Memᴰ d new_components)
unfolding get_radix_components_for_env deploy_component find_preserved build_component
get_radix_components_for_env-Deploys_example =
    get_radix_components_for_env-Deploys build new_components refl

lookup-get_radix_common_component_env_vars_example :
    lookup_variable "LEVEL" (
      get_radix_common_component_env_vars
        (component "api" none)
        (some for_dev)
        (("HASH", "abc") ∷ []))
    ≡ or_own (lookup_variable "LEVEL" (("HASH", "abc") ∷ [])) (
        or_own
          (lookup_variable "LEVEL" (own_variables (some for_dev)))
          (lookup_variable "LEVEL" (component "api" none).variables))
lookup-get_radix_common_component_env_vars_example =
    lookup-get_radix_common_component_env_vars (component "api" none) (some for_dev)
      (("HASH", "abc") ∷ []) "LEVEL" (refl, tt)
