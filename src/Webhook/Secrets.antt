-- ===== src/Webhook/Secrets.antt =====
-- The validation of secrets, webhook/validation/radixapplication/validate_secrets.go, over what it
-- reads of an application of pkg/apis/radix/v1/radixapptypes.go. A component and a job are both
-- common components here, and the keys of their variables stand for the variables. A Go map is a
-- list of its keys or entries; the order in which Go visits it decides only which error is first.
pub mod Accepted
use radix_operator.Prelude.{
  String, Bool, true, false, not, ◌&&◌, ◌||◌, Option, none, some, List, [], ◌∷◌, ◌++◌, map, ◌==◌,
  any, is_empty, equal_fold, find_first, find_all, some?, if◌then◌else◌,
}
use radix_operator.Webhook.KeyVaults.{
  KeyVaultItem, AzureKeyVault, SecretError, or_else, fail_if, first_error, contains, or_empty,
  add_new, check_items, check_key_vaults, validate_secret_refs, set_entry, set_paths, check_paths,
  secret_name_conflicts_with_variable, duplicate_path_for_azure_key_vault, duplicate_env_var_name,
  duplicate_alias, missing_azure_identity_for_azure_key_vault,
  secret_ref_env_var_name_conflicts_with_environment_variable,
}

-- `client_id` is that of the Azure identity, empty without one.
pub record EnvironmentConfig : Type 0 where
  pub environment : String
  pub enabled : Option Bool
  pub variables : List String
  pub key_vaults : List AzureKeyVault
  pub client_id : String

pub record CommonComponent : Type 0 where
  pub name : String
  pub enabled : Option Bool
  pub variables : List String
  pub secrets : List String
  pub key_vaults : List AzureKeyVault
  pub client_id : String
  pub environment_config : List EnvironmentConfig

pub record Application : Type 0 where
  pub environments : List String
  pub components : List CommonComponent
  pub jobs : List CommonComponent

unfoldable pub get_environment_config_by_name : String → CommonComponent → Option EnvironmentConfig
get_environment_config_by_name env c =
    find_first (λ config. equal_fold env config.environment) c.environment_config

abbrev variables_of : Option EnvironmentConfig → List String
variables_of none = []
variables_of (some config) = config.variables

-- The names of the variables of the component in an environment.
unfoldable pub get_env_var_names : CommonComponent → String → List String
unfolding get_environment_config_by_name
get_env_var_names c env = c.variables ++ variables_of (get_environment_config_by_name env c)

unfoldable pub validate_conflicting_environment_and_secret_names :
    List String → List (List String) → Option SecretError
validate_conflicting_environment_and_secret_names secrets variables =
    first_error
      (λ secret.
        first_error (λ names. fail_if (contains names secret) secret_name_conflicts_with_variable)
          variables)
      secrets

-- The names in an environment when the secrets are added: only if there is a configuration for it.
unfoldable pub names_with_secrets : CommonComponent → String → List String
unfolding get_env_var_names
names_with_secrets c env =
    if any (λ config. config.environment == env) c.environment_config
    then get_env_var_names c env ++ c.secrets
    else get_env_var_names c env

unfoldable pub validate_secret_refs_path : CommonComponent → Option SecretError
unfolding set_paths check_paths
validate_secret_refs_path c =
    first_error (λ config. check_paths (set_paths config.key_vaults (set_paths c.key_vaults [])) [])
      c.environment_config

unfoldable pub validate_radix_component_secret_refs : CommonComponent → Option SecretError
unfolding validate_secret_refs validate_secret_refs_path
validate_radix_component_secret_refs c = or_else (validate_secret_refs c.key_vaults) (
    or_else (first_error (λ config. validate_secret_refs config.key_vaults) c.environment_config)
      (validate_secret_refs_path c))

abbrev or_default : Option Bool → Bool → Bool
or_default none d = d
or_default (some b) d = b

abbrev enabled_of : Option EnvironmentConfig → Option Bool
enabled_of none = none
enabled_of (some config) = config.enabled

-- `GetEnabledForEnvironment`: the last configuration of the name is the one in the map.
abbrev last_config : String → List EnvironmentConfig → Option EnvironmentConfig
last_config env [] = none
last_config env (config ∷ configs) =
    let later = last_config env configs in
    if some? later then later else if config.environment == env then some config else none

unfoldable pub get_enabled_for_environment : CommonComponent → String → Bool
get_enabled_for_environment c env =
    or_default (enabled_of (last_config env c.environment_config)) (or_default c.enabled true)

-- The resolved values of useAzureIdentity, by the name of the key vault.
unfoldable pub resolve_common :
    List AzureKeyVault → List (String × Option Bool) → List (String × Option Bool)
unfolding set_entry
resolve_common [] entries = entries
resolve_common (vault ∷ vaults) entries =
    resolve_common vaults (set_entry vault.name vault.use_azure_identity entries)

unfoldable pub override_common :
    List AzureKeyVault → List (String × Option Bool) → List (String × Option Bool)
unfolding set_entry
override_common [] entries = entries
override_common (vault ∷ vaults) entries = override_common vaults (
    if not (any (λ (n, _). n == vault.name) entries) || some? vault.use_azure_identity
    then set_entry vault.name vault.use_azure_identity entries
    else entries)

abbrev vaults_of : Option EnvironmentConfig → List AzureKeyVault
vaults_of none = []
vaults_of (some config) = config.key_vaults

abbrev pub client_id_of : Option EnvironmentConfig → String
client_id_of none = ""
client_id_of (some config) = config.client_id

-- The names, which the code sorts.
unfoldable pub azure_key_vaults_using_azure_identity_for_environment :
    CommonComponent → Option EnvironmentConfig → List String
unfolding resolve_common override_common
azure_key_vaults_using_azure_identity_for_environment c config =
    map (λ (n, _). n)
      (find_all (λ (_, uses). or_default uses false)
        (override_common (vaults_of config) (resolve_common c.key_vaults [])))

abbrev pub fail_on_any : List String → SecretError → Option SecretError
fail_on_any [] e = none
fail_on_any (x ∷ xs) e = some e

unfoldable pub validate_azure_key_vault_azure_identity :
    CommonComponent → List String → Option SecretError
unfolding get_enabled_for_environment get_environment_config_by_name
    azure_key_vaults_using_azure_identity_for_environment
validate_azure_key_vault_azure_identity c environments =
    first_error
      (λ env.
        if not (get_enabled_for_environment c env)
        then none
        else if not (is_empty c.client_id)
            || not (is_empty (client_id_of (get_environment_config_by_name env c)))
        then none
        else fail_on_any
            (azure_key_vaults_using_azure_identity_for_environment c
              (get_environment_config_by_name env c))
            missing_azure_identity_for_azure_key_vault)
      environments

-- The items of key vaults against lists of names.
unfoldable pub check_item_names : List AzureKeyVault → List (List String) → Option SecretError
check_item_names vaults names =
    first_error
      (λ vault.
        first_error
          (λ item.
            first_error
              (λ ns.
                fail_if (contains ns item.env_var)
                  secret_ref_env_var_name_conflicts_with_environment_variable)
              names)
          vault.items)
      vaults

unfoldable pub validate_conflicting_environment_and_secret_refs_names :
    CommonComponent → List String → Option SecretError
unfolding check_item_names names_with_secrets
validate_conflicting_environment_and_secret_refs_names c environments =
    or_else (check_item_names c.key_vaults (map (names_with_secrets c) environments)) (
      first_error
        (λ config.
          check_item_names config.key_vaults
            (map (names_with_secrets c) (find_all (λ env. env == config.environment) environments)))
        c.environment_config)

unfoldable pub validate_radix_component_secrets : List String → CommonComponent → Option SecretError
unfolding validate_conflicting_environment_and_secret_names validate_radix_component_secret_refs
    validate_azure_key_vault_azure_identity validate_conflicting_environment_and_secret_refs_names
validate_radix_component_secrets environments c =
    or_else
      (validate_conflicting_environment_and_secret_names c.secrets
        (map (get_env_var_names c) environments))
      (or_else (validate_radix_component_secret_refs c) (
        or_else (validate_azure_key_vault_azure_identity c environments)
          (validate_conflicting_environment_and_secret_refs_names c environments)))

abbrev pub error_list : Option SecretError → List SecretError
error_list none = []
error_list (some e) = e ∷ []

-- `secretValidator`
unfoldable pub collect_errors : List String → List CommonComponent → List SecretError
unfolding validate_radix_component_secrets
collect_errors environments [] = []
collect_errors environments (c ∷ cs) =
    error_list (validate_radix_component_secrets environments c) ++ collect_errors environments cs

unfoldable pub secret_validator : Application → List SecretError
unfolding collect_errors
secret_validator app =
    collect_errors app.environments app.components ++ collect_errors app.environments app.jobs
