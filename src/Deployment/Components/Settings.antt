-- ===== src/Deployment/Components/Settings.antt =====
-- The settings of a component, merged with the configuration for an environment: the functions that
-- GetRadixComponentsForEnv calls for one field each.
use radix_operator.Prelude.{
  String, Bool, true, false, not, ◌&&◌, Option, none, some, List, [], ◌∷◌, map, ◌==◌, is_empty,
  ends_with, find_first, find_all, some?, if◌then◌else◌,
}
use radix_operator.Webhook.Types.{ComponentPort, ResourceRequirements, Probe, HealthChecks}
use radix_operator.Deployment.Components.Types.{
  EnvVarsMap, RadixNode, EnvironmentConfig, RadixComponent, ExternalAlias, DeployComponentImage,
  RadixDeployExternalDns, Built, built, error, missing_image_tag_name, panic,
}

-- `if e != nil { return e }; return c`
abbrev pub or_own {ℓ} : {A : Type ℓ} → Option A → Option A → Option A
or_own none c = c
or_own (some e) c = some e

abbrev pub of_config {ℓ} :
    {A : Type ℓ} → (EnvironmentConfig → Option A) → Option EnvironmentConfig → Option A
of_config f none = none
of_config f (some config) = f config

unfoldable pub get_environment_specific_config_for_component :
    RadixComponent → String → Option EnvironmentConfig
get_environment_specific_config_for_component c env =
    find_first (λ config. config.environment == env) c.environment_config

abbrev pub or_default : Option Bool → Bool → Bool
or_default none d = d
or_default (some b) d = b

-- `getEnabled`
unfoldable pub get_enabled : RadixComponent → Option EnvironmentConfig → Bool
get_enabled c config = or_default (or_own (of_config (λ k. k.enabled) config) c.enabled) true

abbrev startup_of : Option HealthChecks → Option Probe
startup_of none = none
startup_of (some h) = h.startup_probe

abbrev readiness_of : Option HealthChecks → Option Probe
readiness_of none = none
readiness_of (some h) = h.readiness_probe

abbrev liveness_of : Option HealthChecks → Option Probe
liveness_of none = none
liveness_of (some h) = h.liveness_probe

unfoldable pub get_radix_common_component_health_checks :
    Option HealthChecks → Option HealthChecks → Option HealthChecks
get_radix_common_component_health_checks c config =
    if not (some? c) && not (some? config)
    then none
    else some (record {
      startup_probe = or_own (startup_of config) (startup_of c);
      readiness_probe = or_own (readiness_of config) (readiness_of c);
      liveness_probe = or_own (liveness_of config) (liveness_of c);
    })

-- `updateComponentNode`; `is_positive` says that a text is a number above 0.
unfoldable pub get_radix_common_component_node :
    (String → Bool) → RadixNode → Option RadixNode → RadixNode
get_radix_common_component_node is_positive c none = c
get_radix_common_component_node is_positive c (some node) = record {
  gpu = if is_empty node.gpu then c.gpu else node.gpu;
  gpu_count = if is_positive node.gpu_count then node.gpu_count else c.gpu_count;
}

abbrev no_entries : List (String × String) → Bool
no_entries [] = true
no_entries (_ ∷ _) = false

-- `reflect.DeepEqual(resources, v1.ResourceRequirements{})`, for maps that are nil if empty.
unfoldable pub get_radix_common_component_resources :
    ResourceRequirements → Option ResourceRequirements → ResourceRequirements
get_radix_common_component_resources c none = c
get_radix_common_component_resources c (some r) =
    if no_entries r.limits && no_entries r.requests then c else r

unfoldable pub lookup_variable : String → EnvVarsMap → Option String
lookup_variable key [] = none
lookup_variable key ((k, v) ∷ variables) =
    if k == key then some v else lookup_variable key variables

unfoldable pub set_variable : String → String → EnvVarsMap → EnvVarsMap
set_variable key value [] = (key, value) ∷ []
set_variable key value ((k, v) ∷ variables) =
    if k == key then (key, value) ∷ variables else (k, v) ∷ set_variable key value variables

-- The loop over the variables of the component.
unfoldable pub add_missing : EnvVarsMap → EnvVarsMap → EnvVarsMap
unfolding lookup_variable set_variable
add_missing [] variables = variables
add_missing ((k, v) ∷ common) variables =
    add_missing common
      (if some? (lookup_variable k variables) then variables else set_variable k v variables)

-- `maps.Copy`
unfoldable pub copy_variables : EnvVarsMap → EnvVarsMap → EnvVarsMap
unfolding set_variable
copy_variables [] variables = variables
copy_variables ((k, v) ∷ more) variables = copy_variables more (set_variable k v variables)

abbrev pub own_variables : Option EnvironmentConfig → EnvVarsMap
own_variables none = []
own_variables (some config) = config.variables

unfoldable pub get_radix_common_component_env_vars :
    RadixComponent → Option EnvironmentConfig → EnvVarsMap → EnvVarsMap
unfolding add_missing copy_variables
get_radix_common_component_env_vars c config default_env_vars =
    copy_variables default_env_vars (add_missing c.variables (own_variables config))

-- `getImageTagName`
unfoldable pub get_image_tag_name :
    DeployComponentImage → String → Option EnvironmentConfig → String
get_image_tag_name image tag none =
    if is_empty image.image_tag_name then tag else image.image_tag_name
get_image_tag_name image tag (some config) =
    if not (is_empty image.image_tag_name)
    then image.image_tag_name
    else if not (is_empty config.image_tag_name)
    then config.image_tag_name
    else tag

-- `replace_tag` replaces each "{imageTagName}" of a text by a tag.
unfoldable pub get_image_path :
    (String → String → String)
    → String
    → DeployComponentImage
    → String
    → Option EnvironmentConfig
    → Built String
unfolding get_image_tag_name ends_with
get_image_path replace_tag name image tag config =
    if image.build
    then built image.image_path
    else if ends_with image.image_path "{imageTagName}"
    then (if is_empty (get_image_tag_name image tag config)
        then error (missing_image_tag_name name)
        else built (replace_tag image.image_path (get_image_tag_name image tag config)))
    else built image.image_path

-- `Ports[0].Name`
abbrev first_port : List ComponentPort → Built String
first_port [] = error panic
first_port (p ∷ ps) = built p.name

unfoldable pub get_radix_component_port : RadixComponent → Built String
get_radix_component_port c =
    if is_empty c.public_port && c.public then first_port c.ports else built c.public_port

abbrev issuer_of : String → ExternalAlias → Option String
issuer_of default_issuer a =
    if a.use_certificate_automation then or_own a.issuer (some default_issuer) else none

unfoldable pub get_external_dns_alias :
    List ExternalAlias → String → String → String → List RadixDeployExternalDns
get_external_dns_alias aliases component env default_issuer =
    map
      (λ a. record {
        fqdn = a.alias;
        use_certificate_automation = a.use_certificate_automation;
        issuer = issuer_of default_issuer a;
      })
      (find_all (λ a. a.component == component && a.environment == env) aliases)

abbrev is_config_disabled : Option Bool → Bool
is_config_disabled none = false
is_config_disabled (some b) = not b

abbrev words_or : Option (List String) → List String → List String
words_or none c = c
words_or (some words) c = words

-- `getCommandForEnvironmentConfig` and `getArgsForEnvironmentConfig`
unfoldable pub words_for_environment_config :
    (EnvironmentConfig → Option (List String))
    → Option EnvironmentConfig
    → List String
    → List String
words_for_environment_config f none c = c
words_for_environment_config f (some config) c =
    if is_config_disabled config.enabled then c else words_or (f config) c
