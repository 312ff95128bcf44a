-- ===== src/Webhook/KeyVaults.antt =====
-- The validation of a list of key vaults: validateSecretRefs and the loops of validateSecretRefsPath
-- of webhook/validation/radixapplication/validate_secrets.go, with the errors of that file.
pub mod References
use radix_operator.Prelude.{
  String, Bool, true, false, not, ◌&&◌, ◌||◌, Option, none, some, List, [], ◌∷◌, ◌++◌, map, ◌==◌,
  any, is_empty, equal_fold, find_first, find_all, some?, if◌then◌else◌,
}

pub record KeyVaultItem : Type 0 where
  pub env_var : String
  pub alias : Option String

pub record AzureKeyVault : Type 0 where
  pub name : String
  pub path : Option String
  pub items : List KeyVaultItem
  pub use_azure_identity : Option Bool

pub data SecretError : Type 0 where
  secret_name_conflicts_with_variable duplicate_path_for_azure_key_vault : SecretError
  duplicate_env_var_name duplicate_alias missing_azure_identity_for_azure_key_vault : SecretError
  secret_ref_env_var_name_conflicts_with_environment_variable : SecretError

-- `if err := f(); err != nil { return err }`, then the rest.
abbrev pub or_else : Option SecretError → Option SecretError → Option SecretError
or_else none rest = rest
or_else (some e) rest = some e

-- `if c { return e }`
abbrev pub fail_if : Bool → SecretError → Option SecretError
fail_if true e = some e
fail_if false e = none

-- A loop that returns the first error of its rounds.
abbrev pub first_error {ℓ} : {A : Type ℓ} → (A → Option SecretError) → List A → Option SecretError
first_error f [] = none
first_error f (x ∷ xs) = or_else (f x) (first_error f xs)

abbrev pub contains : List String → String → Bool
contains names name = any (λ n. n == name) names

abbrev pub or_empty : Option String → String
or_empty none = ""
or_empty (some s) = s

-- `if len(name) > 0 { if exists { return e }; existing[name] = true }`, then the rest.
unfoldable pub add_new :
    String → SecretError → List String → (List String → Option SecretError) → Option SecretError
add_new name e existing rest =
    if is_empty name
    then rest existing
    else if contains existing name
    then some e
    else rest (name ∷ existing)

unfoldable pub check_items :
    List KeyVaultItem
    → List String
    → List String
    → (List String → List String → Option SecretError)
    → Option SecretError
unfolding add_new
check_items [] variables aliases rest = rest variables aliases
check_items (item ∷ items) variables aliases rest =
    add_new item.env_var duplicate_env_var_name variables λ vs.
      add_new (or_empty item.alias) duplicate_alias aliases λ as'. check_items items vs as' rest

unfoldable pub check_key_vaults :
    List AzureKeyVault → List String → List String → List String → Option SecretError
unfolding check_items
check_key_vaults [] variables aliases paths = none
check_key_vaults (vault ∷ vaults) variables aliases paths =
    add_new (or_empty vault.path) duplicate_path_for_azure_key_vault paths
      λ ps. check_items vault.items variables aliases λ vs as'. check_key_vaults vaults vs as' ps

unfoldable pub validate_secret_refs : List AzureKeyVault → Option SecretError
unfolding check_key_vaults
validate_secret_refs vaults = check_key_vaults vaults [] [] []

-- `m[name] = value` for a map from names to values.
unfoldable pub set_entry {ℓ} : {A : Type ℓ} → String → A → List (String × A) → List (String × A)
set_entry name value [] = (name, value) ∷ []
set_entry name value ((n, v) ∷ entries) =
    if n == name then (name, value) ∷ entries else (n, v) ∷ set_entry name value entries

-- The paths of the key vaults, set over those that are there.
unfoldable pub set_paths : List AzureKeyVault → List (String × String) → List (String × String)
unfolding set_entry
set_paths [] paths = paths
set_paths (vault ∷ vaults) paths = set_paths vaults (
    if is_empty (or_empty vault.path)
    then paths
    else set_entry vault.name (or_empty vault.path) paths)

unfoldable pub check_paths : List (String × String) → List String → Option SecretError
check_paths [] existing = none
check_paths ((name, path) ∷ paths) existing =
    or_else (fail_if (contains existing path) duplicate_path_for_azure_key_vault)
      (check_paths paths (path ∷ existing))
