-- ===== src/Webhook/Dns.antt =====
-- The validators of DNS aliases: webhook/validation/radixapplication/validate_dns.go, with
-- `doesEnvExist`, `doesComponentExistAndEnabled` and `doesComponentHaveAPublicPort` of validate.go.
pub mod Targets
use radix_operator.Prelude.{
  ℕ, String, Bool, true, false, not, ◌&&◌, ◌||◌, Option, none, some, List, [], ◌∷◌, ◌==◌, any,
  find_first, is_empty, report, concat_map, join, if◌then◌else◌,
}
use radix_operator.Webhook.Types.{
  RadixComponent, DnsAlias, ExternalAlias, Application, ValidationError,
  get_enabled_for_environment_config, get_environment_config_by_name,
  dns_alias_environment_not_defined, dns_alias_component_not_defined_or_disabled,
  dns_alias_component_is_not_marked_as_public, external_alias_environment_not_defined,
  external_alias_component_not_defined, external_alias_component_not_marked_as_public,
  dns_alias_already_used_by_another_application, dns_alias_reserved_for_radix_platform_application,
  dns_alias_reserved_for_radix_platform_service,
}

unfoldable pub does_env_exist : Application → String → Bool
does_env_exist ra name = any (λ e. e == name) ra.environments

enabled_in : String → Option RadixComponent → Bool
unfolding get_enabled_for_environment_config get_environment_config_by_name
enabled_in environment none = false
enabled_in environment (some c) =
    get_enabled_for_environment_config c
      (get_environment_config_by_name environment c.environment_config)

unfoldable pub does_component_exist_and_enabled : Application → String → String → Bool
unfolding enabled_in
does_component_exist_and_enabled ra component environment =
    enabled_in environment (find_first (λ c. c.name == component) ra.components)

is_public : Option RadixComponent → Bool
is_public none = false
is_public (some c) = c.public || not (is_empty c.public_port)

unfoldable pub does_component_have_a_public_port : Application → String → Bool
unfolding is_public
does_component_have_a_public_port ra name =
    is_public (find_first (λ c. c.name == name) ra.components)

-- `validateDNSAliasComponentAndEnvironmentAvailable`, then the rest if it has no error.
unfoldable pub available_or :
    Application → String → String → List ValidationError → List ValidationError
unfolding does_env_exist does_component_exist_and_enabled
available_or ra component environment rest =
    if not (does_env_exist ra environment)
    then dns_alias_environment_not_defined ∷ []
    else if not (does_component_exist_and_enabled ra component environment)
    then dns_alias_component_not_defined_or_disabled ∷ []
    else rest

-- The checks of one alias.
unfoldable pub validate_target : Application → String → String → List ValidationError
unfolding available_or does_component_have_a_public_port
validate_target ra component environment = available_or ra component environment (
    report (not (does_component_have_a_public_port ra component))
      dns_alias_component_is_not_marked_as_public)

unfoldable pub dns_alias_validator : Application → List ValidationError
unfolding validate_target
dns_alias_validator ra =
    concat_map (λ alias. validate_target ra alias.component alias.environment) ra.dns_alias

unfoldable pub dns_app_alias_validator : Application → List ValidationError
unfolding validate_target
dns_app_alias_validator ra =
    if is_empty ra.dns_app_alias.component && is_empty ra.dns_app_alias.environment
    then []
    else validate_target ra ra.dns_app_alias.component ra.dns_app_alias.environment

unfoldable pub external_dns_alias_validator : Application → List ValidationError
unfolding does_env_exist does_component_exist_and_enabled does_component_have_a_public_port
external_dns_alias_validator ra =
    concat_map
      (λ alias. join (
        report (not (does_env_exist ra alias.environment)) external_alias_environment_not_defined
        ∷ report (not (does_component_exist_and_enabled ra alias.component alias.environment))
            external_alias_component_not_defined
        ∷ report (not (does_component_have_a_public_port ra alias.component))
            external_alias_component_not_marked_as_public
        ∷ []))
      ra.dns_external_alias

-- A RadixDNSAlias of the cluster.
pub record RadixDnsAlias : Type 0 where
  pub name : String
  pub app_name : String

reserved_for_other : String → Option (String × String) → Bool
reserved_for_other app none = false
reserved_for_other app (some (alias, owner)) = not (owner == app)

-- The validator of `createDNSAliasAvailableValidator`, once the aliases of the cluster are listed;
-- `reserved_apps` are the entries of a map from aliases to applications.
unfoldable pub dns_alias_available_validator :
    List String → List (String × String) → List RadixDnsAlias → Application → List ValidationError
unfolding reserved_for_other
dns_alias_available_validator reserved reserved_apps items ra =
    concat_map
      (λ alias. join (
        report (any (λ item. not (item.app_name == ra.name) && item.name == alias.alias) items)
          dns_alias_already_used_by_another_application
        ∷ report
            (reserved_for_other ra.name
              (find_first (λ entry. entry.0 == alias.alias) reserved_apps))
            dns_alias_reserved_for_radix_platform_application
        ∷ report (any (λ name. name == alias.alias) reserved)
            dns_alias_reserved_for_radix_platform_service
        ∷ []))
      ra.dns_alias
