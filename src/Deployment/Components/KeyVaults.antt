-- ===== src/Deployment/Components/KeyVaults.antt =====
-- The key vaults of a deployed component: getRadixCommonComponentAzureKeyVaultSecretRefs of
-- pkg/apis/deployment/radixcommoncomponent.go. The map from names to key vaults is the list of the
-- key vaults; the order in which Go visits it is left out.
pub mod Counts
pub mod Once
use radix_operator.Prelude.{
  String, Bool, true, false, not, Option, none, some, List, [], ◌∷◌, ◌++◌, ◌==◌, is_empty, find_all,
  if◌then◌else◌,
}
use radix_operator.Deployment.Components.Settings.{or_own}
use radix_operator.Webhook.KeyVaults.{KeyVaultItem, AzureKeyVault, contains, or_empty}
use radix_operator.Webhook.KeyVaults.References.{vault_variables}

unfoldable pub find_vault : String → List AzureKeyVault → Option AzureKeyVault
find_vault name [] = none
find_vault name (v ∷ vaults) = if v.name == name then some v else find_vault name vaults

-- `envAzureKeyVaultsMap[name] = vault`
unfoldable pub set_vault : String → AzureKeyVault → List AzureKeyVault → List AzureKeyVault
set_vault name vault [] = vault ∷ []
set_vault name vault (v ∷ vaults) =
    if v.name == name then vault ∷ vaults else v ∷ set_vault name vault vaults

unfoldable pub set_env_vaults : List AzureKeyVault → List AzureKeyVault → List AzureKeyVault
unfolding set_vault
set_env_vaults [] vaults = vaults
set_env_vaults (v ∷ vs) vaults = set_env_vaults vs (set_vault v.name v vaults)

-- `getAzureKeyVaultItemsWithEnvVarsNotExistingInEnvSecretRefs`
unfoldable pub items_not_existing : List String → List KeyVaultItem → List KeyVaultItem
items_not_existing existing = find_all (λ i. not (contains existing i.env_var))

abbrev pub has_items : AzureKeyVault → Bool
has_items v = not (no_items v.items)
  where
    no_items : List KeyVaultItem → Bool
    no_items [] = true
    no_items (_ ∷ _) = false

-- The key vault of the component, with that of the environment if there is one.
unfoldable pub compose : Option AzureKeyVault → AzureKeyVault → List KeyVaultItem → AzureKeyVault
compose none common items = record common { items = items }
compose (some env) common items = record {
  name = env.name;
  path = if is_empty (or_empty env.path) then common.path else env.path;
  items = env.items ++ items;
  use_azure_identity = or_own env.use_azure_identity common.use_azure_identity;
}

-- The loop over the key vaults of the component.
unfoldable pub add_common_vaults :
    List String → List AzureKeyVault → List AzureKeyVault → List AzureKeyVault
unfolding find_vault set_vault items_not_existing compose
add_common_vaults existing [] vaults = vaults
add_common_vaults existing (common ∷ cs) vaults = add_common_vaults existing cs (
    if has_items common
    then set_vault common.name
        (compose (find_vault common.name vaults) common (items_not_existing existing common.items))
        vaults
    else vaults)

abbrev pub env_vaults : Option (List AzureKeyVault) → List AzureKeyVault
env_vaults none = []
env_vaults (some vaults) = vaults

unfoldable pub get_azure_key_vault_secret_refs :
    List AzureKeyVault → Option (List AzureKeyVault) → List AzureKeyVault
unfolding set_env_vaults add_common_vaults
get_azure_key_vault_secret_refs [] config = env_vaults config
get_azure_key_vault_secret_refs (common ∷ cs) config = find_all has_items (
    add_common_vaults (vault_variables (env_vaults config)) (common ∷ cs)
      (set_env_vaults (env_vaults config) []))
