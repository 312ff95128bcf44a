-- ===== src/Examples/Secrets.antt =====
-- An application whose component has a secret, a variable and a key vault, and the key vault of
-- its deployment.
use radix_operator.Prelude.{
  refl, none, some, [], ◌∷◌, All, true, equal_fold, ◌≤◌, ◌≡◌, Memᴰ, if◌then◌else◌,
}
use radix_operator.Webhook.KeyVaults.{contains}
use radix_operator.Webhook.Secrets.{
  EnvironmentConfig, CommonComponent, Application, secret_validator,
}
use radix_operator.Webhook.KeyVaults.References.{vault_variables}
use radix_operator.Deployment.Components.KeyVaults.{get_azure_key_vault_secret_refs}
use radix_operator.Deployment.Components.KeyVaults.Counts.{occurrences}
use radix_operator.Deployment.Components.KeyVaults.Once.{accepted_variables_once}
use radix_operator.Webhook.Secrets.Accepted.{accepted_secrets-Fit, SecretsFit}

abbrev for_dev : EnvironmentConfig
for_dev = record {
  environment = "dev";
  enabled = none;
  variables = "LOG_LEVEL" ∷ [];
  key_vaults =
      (record {
        name = "vault";
        path = none;
        items = (record { env_var = "TOKEN"; alias = some "token" }) ∷ [];
        use_azure_identity = none;
      })
      ∷ [];
  client_id = "";
}

abbrev component : CommonComponent
component = record {
  name = "api";
  enabled = none;
  variables = "LOG_LEVEL" ∷ [];
  secrets = "PASSWORD" ∷ [];
  key_vaults =
      (record {
        name = "vault";
        path = none;
        items =
            (record { env_var = "TOKEN"; alias = none })
            ∷ (record { env_var = "KEY"; alias = none })
            ∷ [];
        use_azure_identity = some true;
      })
      ∷ [];
  client_id = "client";
  environment_config = for_dev ∷ [];
}

abbrev application : Application
application = record { environments = "dev" ∷ "prod" ∷ []; components = component ∷ []; jobs = [] }

accepted_secrets-Fit_example :
    All (SecretsFit application.environments) application.components
    × All (SecretsFit application.environments) application.jobs
unfolding secret_validator equal_fold
accepted_secrets-Fit_example = accepted_secrets-Fit application refl

accepted_variables_once_example :
    let merged = get_azure_key_vault_secret_refs component.key_vaults (some for_dev.key_vaults) in
    (occurrences "TOKEN" (vault_variables merged) ≤ 1)
    × (occurrences "TOKEN" (vault_variables merged) ≡ (
        if contains (vault_variables for_dev.key_vaults) "TOKEN"
        then occurrences "TOKEN" (vault_variables for_dev.key_vaults)
        else occurrences "TOKEN" (vault_variables component.key_vaults)))
unfolding secret_validator equal_fold
accepted_variables_once_example =
    accepted_variables_once application component for_dev "TOKEN" refl (Memᴰ.head refl)
      (Memᴰ.head refl) (refl, tt) refl

-- The variable of the environment comes first, and the other one of the component is added.
merged_variables :
    vault_variables (get_azure_key_vault_secret_refs component.key_vaults (some for_dev.key_vaults))
    ≡ "TOKEN" ∷ "KEY" ∷ []
unfolding get_azure_key_vault_secret_refs
merged_variables = refl
