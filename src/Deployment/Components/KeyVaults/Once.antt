-- ===== src/Deployment/Components/KeyVaults/Once.antt =====
-- The variables from key vaults of a component of an accepted application, when it is deployed.
use radix_operator.Prelude.{
  ◌≤◌, String, true, false, Option, some, List, [], ◌∷◌, ◌≡◌, refl, sym, ◌⊎◌, inl, inr, ◌==◌,
  eq_iff, beq_refl, any, is_empty, Distinct, Memᴰ, All_of_mem, ap, ◌∙◌, arith, Bool-cases, map,
  if◌then◌else◌,
}
use radix_operator.Webhook.KeyVaults.{AzureKeyVault, contains}
use radix_operator.Webhook.Secrets.{
  EnvironmentConfig, CommonComponent, Application, secret_validator,
}
use radix_operator.Webhook.KeyVaults.References.{vault_variables, given}
use radix_operator.Webhook.Secrets.Accepted.{SecretsFit, accepted_secrets-Fit}
use radix_operator.Deployment.Components.KeyVaults.{
  set_env_vaults, add_common_vaults, env_vaults, get_azure_key_vault_secret_refs,
}
use radix_operator.Deployment.Components.KeyVaults.Counts.{
  occurrences, absent, set_env_vaults-all, occurrences-add_common_vaults, occurrences-has_items,
}

-- A name that is given stands once among names that are distinct.
module _ (n : String) (full : is_empty n ≡ false) where
  not_given : (xs : List String) → any (λ y. n == y) (given xs) ≡ false → occurrences n xs ≡ 0
  unfolding occurrences
  not_given [] h = refl
  not_given (x ∷ xs) h = elim (Bool-cases (x == n)) [
    | inl e ↦
        let same : x ≡ n = (eq_iff x n).0 e in absurd (clash (rw (same, full, beq_refl n) at h))
    | inr e ↦ rw e (not_given xs (rest (Bool-cases (is_empty x))))
  ]
    where
      clash : true ≡ false → ⊥
      clash q = cc

      rest : (is_empty x ≡ true) ⊎ (is_empty x ≡ false) → any (λ y. n == y) (given xs) ≡ false
      rest (inl blank) = rw blank at h
      rest (inr given_x) = ground (arith, rw given_x at h)

  occurrences_of_given : (xs : List String) → Distinct (given xs) → occurrences n xs ≤ 1
  unfolding occurrences
  occurrences_of_given [] h = omega arith
  occurrences_of_given (x ∷ xs) h = elim (Bool-cases (is_empty x)) [
    | inl blank ↦ elim (Bool-cases (x == n)) [
      | inl e ↦
          let same : x ≡ n = (eq_iff x n).0 e in
          absurd (clash (sym blank ∙ ap is_empty same ∙ full))
      | inr e ↦ rw e (occurrences_of_given xs (rw blank at h))
    ]
    | inr given_x ↦
        let (first, others) : (any (λ y. x == y) (given xs) ≡ false) × Distinct (given xs) =
          rw given_x at h in
        elim (Bool-cases (x == n)) [
          | inl e ↦
              let same : x ≡ n = (eq_iff x n).0 e in
              rw e (let zero_more = not_given xs (rw same at first) in omega arith)
          | inr e ↦ rw e (occurrences_of_given xs others)
        ]
  ]
    where
      clash : true ≡ false → ⊥
      clash q = cc

  -- What holds of the key vaults of the component and those of the environment.
  abbrev Once : List AzureKeyVault → List AzureKeyVault → List AzureKeyVault → Type 0
  Once merged env common =
      (occurrences n (vault_variables merged) ≤ 1)
      × (occurrences n (vault_variables merged) ≡ (
          if contains (vault_variables env) n
          then occurrences n (vault_variables env)
          else occurrences n (vault_variables common)))

  merged-Once :
      (common : List AzureKeyVault) (config : Option (List AzureKeyVault))
      → Distinct (map (λ v. v.name) (env_vaults config))
      → Distinct (given (vault_variables common))
      → Distinct (given (vault_variables (env_vaults config)))
      → Once (get_azure_key_vault_secret_refs common config) (env_vaults config) common
  unfolding get_azure_key_vault_secret_refs occurrences
  merged-Once [] config dn dc de = (
    occurrences_of_given (vault_variables (env_vaults config)) de,
    elim (Bool-cases (contains (vault_variables (env_vaults config)) n)) [
      | inl old ↦ rw old refl
      | inr fresh ↦ rw fresh (absent n (vault_variables (env_vaults config)) fresh)
    ],
  )
  merged-Once (v ∷ vs) config dn dc de =
      let env = env_vaults config in
      let names = vault_variables env in
      let a =
        ap (λ (us : List AzureKeyVault). occurrences n (vault_variables us))
          (set_env_vaults-all env dn) in
      let b = occurrences-add_common_vaults n names (v ∷ vs) (set_env_vaults env []) in
      let c = occurrences-has_items n (add_common_vaults names (v ∷ vs) (set_env_vaults env [])) in
      let once_c = occurrences_of_given (vault_variables (v ∷ vs)) dc in
      let once_e = occurrences_of_given names de in
      elim (Bool-cases (contains names n)) [
        | inl old ↦ let b2 = rw old at b in (omega arith, rw old (omega arith))
        | inr fresh ↦
            let b2 = rw fresh at b in
            let zero_env = absent n names fresh in (omega arith, rw fresh (omega arith))
      ]

-- In the deployment of an application that the webhook accepts, no variable from a key vault stands
-- twice in the key vaults of a component, merged with those of the configuration for an
-- environment, which have distinct names, as the schema demands. A variable stands there as often as in the key vaults of
-- the configuration if they have it, and otherwise as often as in those of the component, so that
-- none of either is lost.
pub accepted_variables_once :
    (app : Application) (c : CommonComponent) (config : EnvironmentConfig) (n : String)
    → secret_validator app ≡ []
    → Memᴰ c app.components
    → Memᴰ config c.environment_config
    → Distinct (map (λ v. v.name) config.key_vaults)
    → is_empty n ≡ false
    → let merged = get_azure_key_vault_secret_refs c.key_vaults (some config.key_vaults) in
      (occurrences n (vault_variables merged) ≤ 1)
      × (occurrences n (vault_variables merged) ≡ (
          if contains (vault_variables config.key_vaults) n
          then occurrences n (vault_variables config.key_vaults)
          else occurrences n (vault_variables c.key_vaults)))
accepted_variables_once app c config n accepted mc me distinct full =
    let fit : SecretsFit app.environments c =
      All_of_mem (SecretsFit app.environments) app.components (accepted_secrets-Fit app accepted).0
        mc in
    merged-Once n full c.key_vaults (some config.key_vaults) distinct fit.common_refs.0
      (fit.environment_refs config me).0
