-- ===== src/Webhook/Secrets/Accepted.antt =====
-- What the validation of secrets guarantees for the components and jobs of an accepted application.
use radix_operator.Prelude.{
  String, Bool, true, false, Option, none, some, List, [], ◌∷◌, map, Memᴰ, ◌≡◌, refl, ap, ◌∙◌,
  is_empty, append-nil, mem-map, All, All-intro, Distinct, find_all, find_all_of_mem, ◌==◌,
  beq_refl,
}
use radix_operator.Webhook.KeyVaults.{
  KeyVaultItem, AzureKeyVault, SecretError, or_else, fail_if, first_error, contains,
  validate_secret_refs, set_paths, missing_azure_identity_for_azure_key_vault,
  secret_name_conflicts_with_variable, secret_ref_env_var_name_conflicts_with_environment_variable,
}
use radix_operator.Webhook.Secrets.{
  EnvironmentConfig, CommonComponent, Application, get_env_var_names, names_with_secrets,
  get_environment_config_by_name, get_enabled_for_environment, client_id_of,
  validate_secret_refs_path, check_item_names,
  azure_key_vaults_using_azure_identity_for_environment, fail_on_any,
  validate_conflicting_environment_and_secret_names, validate_radix_component_secret_refs,
  validate_azure_key_vault_azure_identity, validate_conflicting_environment_and_secret_refs_names,
  validate_radix_component_secrets, error_list, collect_errors, secret_validator,
}
use radix_operator.Webhook.KeyVaults.References.{
  HasDistinctRefs, validate_secret_refs-Distinct, check_paths-Distinct,
}

or_else-none : (a b : Option SecretError) → or_else a b ≡ none → (a ≡ none) × (b ≡ none)
or_else-none none b h = (refl, h)
or_else-none (some e) b h = cc

fail_if-none : (b : Bool) (e : SecretError) → fail_if b e ≡ none → b ≡ false
fail_if-none true e h = cc
fail_if-none false e h = refl

fail_on_any-none : (xs : List String) (e : SecretError) → fail_on_any xs e ≡ none → xs ≡ []
fail_on_any-none [] e h = refl
fail_on_any-none (x ∷ xs) e h = cc

first_error-none {ℓ} :
    {A : Type ℓ} (f : A → Option SecretError) {x : A} (xs : List A)
    → first_error f xs ≡ none
    → Memᴰ x xs
    → f x ≡ none
first_error-none f [] h m = elim m [ ]
first_error-none f (y ∷ xs) h (Memᴰ.head e) = ap f e ∙ (or_else-none (f y) (first_error f xs) h).0
first_error-none f (y ∷ xs) h (Memᴰ.tail m) =
    first_error-none f xs (or_else-none (f y) (first_error f xs) h).1 m

-- The rules that an accepted component obeys in the environments of its application.
pub record SecretsFit (environments : List String) (c : CommonComponent) : Type 0 where
  -- No secret has the name of a variable, in any environment.
  pub secrets_are_no_variables :
      (secret env : String)
      → Memᴰ secret c.secrets
      → Memᴰ env environments
      → contains (get_env_var_names c env) secret ≡ false
  -- The key vaults of the component, and those of each environment, have distinct references.
  pub common_refs : HasDistinctRefs c.key_vaults
  pub environment_refs :
      (config : EnvironmentConfig)
      → Memᴰ config c.environment_config
      → HasDistinctRefs config.key_vaults
  -- A key vault that uses the Azure identity has one, where the component is enabled.
  pub identity_is_there :
      (env : String)
      → Memᴰ env environments
      → get_enabled_for_environment c env ≡ true
      → is_empty c.client_id ≡ true
      → is_empty (client_id_of (get_environment_config_by_name env c)) ≡ true
      → azure_key_vaults_using_azure_identity_for_environment c
          (get_environment_config_by_name env c)
        ≡ []
  -- A variable from a key vault has the name of no other variable, in any environment.
  pub items_are_no_variables :
      (vault : AzureKeyVault) (item : KeyVaultItem) (env : String)
      → Memᴰ vault c.key_vaults
      → Memᴰ item vault.items
      → Memᴰ env environments
      → contains (names_with_secrets c env) item.env_var ≡ false
  -- Nor has one from a key vault of the configuration of an environment of the application, there.
  pub environment_items_are_no_variables :
      (config : EnvironmentConfig) (vault : AzureKeyVault) (item : KeyVaultItem)
      → Memᴰ config c.environment_config
      → Memᴰ vault config.key_vaults
      → Memᴰ item vault.items
      → Memᴰ config.environment environments
      → contains (names_with_secrets c config.environment) item.env_var ≡ false
  -- The paths are distinct once those of an environment have replaced the common ones.
  pub merged_paths :
      (config : EnvironmentConfig)
      → Memᴰ config c.environment_config
      → Distinct (map (λ (_, path). path) (set_paths config.key_vaults (set_paths c.key_vaults [])))

module _ (environments : List String) (c : CommonComponent) where
  secret_names :
      validate_conflicting_environment_and_secret_names c.secrets
          (map (get_env_var_names c) environments)
        ≡ none
      → (secret env : String) → Memᴰ secret c.secrets
      → Memᴰ env environments
      → contains (get_env_var_names c env) secret ≡ false
  unfolding validate_conflicting_environment_and_secret_names
  secret_names h secret env m k =
      let of_secret =
        first_error-none
          (λ s.
            first_error (λ names. fail_if (contains names s) secret_name_conflicts_with_variable)
              (map (get_env_var_names c) environments))
          c.secrets h m in
      fail_if-none (contains (get_env_var_names c env) secret) secret_name_conflicts_with_variable (
        first_error-none
          (λ names. fail_if (contains names secret) secret_name_conflicts_with_variable)
          (map (get_env_var_names c) environments) of_secret
          (mem-map (get_env_var_names c) environments k))

  identity :
      validate_azure_key_vault_azure_identity c environments ≡ none
      → (env : String) → Memᴰ env environments
      → get_enabled_for_environment c env ≡ true
      → is_empty c.client_id ≡ true
      → is_empty (client_id_of (get_environment_config_by_name env c)) ≡ true
      → azure_key_vaults_using_azure_identity_for_environment c
          (get_environment_config_by_name env c)
        ≡ []
  unfolding validate_azure_key_vault_azure_identity
  identity h env m on no_own no_env =
      let checked = first_error-none _ environments h m in
      fail_on_any-none
        (azure_key_vaults_using_azure_identity_for_environment c
          (get_environment_config_by_name env c))
        missing_azure_identity_for_azure_key_vault (rw (on, no_own, no_env) at checked)

  item_names :
      (vaults : List AzureKeyVault) (envs : List String)
      → check_item_names vaults (map (names_with_secrets c) envs) ≡ none
      → (vault : AzureKeyVault) (item : KeyVaultItem) (env : String) → Memᴰ vault vaults
      → Memᴰ item vault.items
      → Memᴰ env envs
      → contains (names_with_secrets c env) item.env_var ≡ false
  unfolding check_item_names
  item_names vaults envs h vault item env m k l =
      let of_vault = first_error-none _ vaults h m in
      let of_item = first_error-none _ vault.items of_vault k in
      fail_if-none (contains (names_with_secrets c env) item.env_var)
        secret_ref_env_var_name_conflicts_with_environment_variable
        (first_error-none
          (λ ns.
            fail_if (contains ns item.env_var)
              secret_ref_env_var_name_conflicts_with_environment_variable)
          (map (names_with_secrets c) envs) of_item (mem-map (names_with_secrets c) envs l))

  component-SecretsFit :
      validate_radix_component_secrets environments c ≡ none → SecretsFit environments c
  unfolding validate_radix_component_secrets validate_radix_component_secret_refs
      validate_secret_refs_path validate_conflicting_environment_and_secret_refs_names
  component-SecretsFit h =
      let (names, h1) = or_else-none _ _ h in
      let (refs, h2) = or_else-none _ _ h1 in
      let (ids, conflicts) = or_else-none _ _ h2 in
      let (common, h3) = or_else-none _ _ refs in
      let (configs, paths) = or_else-none _ _ h3 in
      record {
        secrets_are_no_variables = secret_names names;
        common_refs = validate_secret_refs-Distinct c.key_vaults common;
        environment_refs = λ config m. validate_secret_refs-Distinct config.key_vaults (
            first_error-none (λ k. validate_secret_refs k.key_vaults) c.environment_config configs
              m);
        identity_is_there = identity ids;
        items_are_no_variables =
            item_names c.key_vaults environments (or_else-none _ _ conflicts).0;
        environment_items_are_no_variables = λ config vault item m k l there.
            item_names config.key_vaults (find_all (λ env. env == config.environment) environments)
              (first_error-none _ c.environment_config (or_else-none _ _ conflicts).1 m) vault item
              config.environment k l
              (find_all_of_mem (λ env. env == config.environment) environments there
                (beq_refl config.environment));
        merged_paths = λ config m.
            (check_paths-Distinct (set_paths config.key_vaults (set_paths c.key_vaults [])) []
              (first_error-none _ c.environment_config paths m)).0;
      }

error_list-nil : (e : Option SecretError) → error_list e ≡ [] → e ≡ none
error_list-nil none h = refl
error_list-nil (some e) h = cc

mem-collect_errors :
    (environments : List String) (cs : List CommonComponent) {c : CommonComponent}
    → collect_errors environments cs ≡ []
    → Memᴰ c cs
    → validate_radix_component_secrets environments c ≡ none
unfolding collect_errors
mem-collect_errors environments [] h m = elim m [ ]
mem-collect_errors environments (x ∷ cs) h (Memᴰ.head e) =
    ap (validate_radix_component_secrets environments) e
    ∙ error_list-nil (validate_radix_component_secrets environments x)
        (append-nil (error_list (validate_radix_component_secrets environments x))
          (collect_errors environments cs) h).0
mem-collect_errors environments (x ∷ cs) h (Memᴰ.tail m) =
    mem-collect_errors environments cs
      (append-nil (error_list (validate_radix_component_secrets environments x))
        (collect_errors environments cs) h).1
      m

-- In an accepted application the secrets of each component and job have no name of one of its
-- variables; the references of its key vaults, and of those of each of its environments, are
-- distinct, and so are the paths once those of an environment have replaced the common ones; each
-- key vault that uses the Azure identity has one where the component is enabled; and no variable
-- from a key vault of the component, or of its configuration for an environment of the application
-- there, has the name of another variable or, where there is a configuration, of a secret.
pub accepted_secrets-Fit :
    (app : Application)
    → secret_validator app ≡ []
    → All (SecretsFit app.environments) app.components × All (SecretsFit app.environments) app.jobs
unfolding secret_validator
accepted_secrets-Fit app h =
    let (of_components, of_jobs) =
      append-nil (collect_errors app.environments app.components)
        (collect_errors app.environments app.jobs) h in
    (
      All-intro (SecretsFit app.environments) app.components (λ c m.
          component-SecretsFit app.environments c
            (mem-collect_errors app.environments app.components of_components m)),
      All-intro (SecretsFit app.environments) app.jobs (λ c m.
          component-SecretsFit app.environments c
            (mem-collect_errors app.environments app.jobs of_jobs m)),
    )
