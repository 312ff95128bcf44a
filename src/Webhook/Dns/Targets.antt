-- ===== src/Webhook/Dns/Targets.antt =====
-- What the DNS aliases of an accepted application point to:
-- webhook/validation/radixapplication/validate_dns.go.
use radix_operator.Prelude.{
  String, true, false, not, ◌&&◌, ◌||◌, ◌≡◌, ◌⊎◌, inl, inr, [], ◌∷◌, ◌==◌, Memᴰ, find_first,
  find_first-some, is_empty, report, report-nil, join, join-nil, concat_map-nil, All, All-intro,
  Bool-cases, Option-cases, eq_iff, arith,
}
use radix_operator.Webhook.Types.{
  RadixComponent, ExternalAlias, Application, get_enabled_for_environment_config,
  get_environment_config_by_name, external_alias_environment_not_defined,
  external_alias_component_not_defined, external_alias_component_not_marked_as_public,
}
use radix_operator.Webhook.Dns.{
  does_env_exist, does_component_exist_and_enabled, enabled_in, is_public,
  does_component_have_a_public_port, available_or, validate_target, dns_alias_validator,
  dns_app_alias_validator, external_dns_alias_validator,
}

-- A public component of the application, enabled in an environment of the application.
pub record Target (ra : Application) (component environment : String) : Type 0 where
  pub env_exists : does_env_exist ra environment ≡ true
  pub target : RadixComponent
  pub listed : Memᴰ target ra.components
  pub named : target.name ≡ component
  pub enabled :
      get_enabled_for_environment_config target
        (get_environment_config_by_name environment target.environment_config)
      ≡ true
  pub has_public_port : (target.public || not (is_empty target.public_port)) ≡ true

found-Target :
    (ra : Application) (component environment : String)
    → does_env_exist ra environment ≡ true
    → does_component_exist_and_enabled ra component environment ≡ true
    → does_component_have_a_public_port ra component ≡ true
    → Target ra component environment
unfolding does_component_exist_and_enabled does_component_have_a_public_port
found-Target ra component environment e d p =
    elim (Option-cases (find_first (λ c. c.name == component) ra.components)) [
      | inl missing ↦
          let d' : enabled_in environment (find_first (λ c. c.name == component) ra.components)
              ≡ true =
            d in
          let absurd : false ≡ true = rw missing at d' in cc
      | inr (c, found) ↦
          let (m, n) = find_first-some (λ c. c.name == component) ra.components found in
          let d' : enabled_in environment (find_first (λ c. c.name == component) ra.components)
              ≡ true =
            d in
          let p' : is_public (find_first (λ c. c.name == component) ra.components) ≡ true = p in
          record {
            env_exists = e;
            target = c;
            listed = m;
            named = (eq_iff c.name component).0 n;
            enabled = rw found at d';
            has_public_port = rw found at p';
          }
    ]

validate_target-Target :
    (ra : Application) (component environment : String)
    → validate_target ra component environment ≡ []
    → Target ra component environment
unfolding validate_target available_or
validate_target-Target ra component environment h =
    found-Target ra component environment (ground arith) (ground arith) (ground arith)

external-Target :
    (ra : Application) (alias : ExternalAlias)
    → join (
        report (not (does_env_exist ra alias.environment)) external_alias_environment_not_defined
        ∷ report
            (not (does_component_exist_and_enabled ra alias.component alias.environment))
            external_alias_component_not_defined
        ∷ report
            (not (does_component_have_a_public_port ra alias.component))
            external_alias_component_not_marked_as_public
        ∷ [])
      ≡ []
    → Target ra alias.component alias.environment
external-Target ra alias h =
    let checks = join-nil _ h in
    let e = report-nil (not (does_env_exist ra alias.environment)) _ checks.0 in
    let d =
      report-nil (not (does_component_exist_and_enabled ra alias.component alias.environment)) _
        checks.1.0 in
    let p =
      report-nil (not (does_component_have_a_public_port ra alias.component)) _ checks.1.1.0 in
    found-Target ra alias.component alias.environment (ground arith) (ground arith) (ground arith)

app_alias-Target :
    (ra : Application)
    → dns_app_alias_validator ra ≡ []
    → ((is_empty ra.dns_app_alias.component && is_empty ra.dns_app_alias.environment) ≡ true)
      ⊎ Target ra ra.dns_app_alias.component ra.dns_app_alias.environment
unfolding dns_app_alias_validator
app_alias-Target ra h =
    let unset = is_empty ra.dns_app_alias.component && is_empty ra.dns_app_alias.environment in
    elim (Bool-cases unset) [
      | inl e ↦ inl e
      | inr set ↦ inr (validate_target-Target ra _ _ (ground arith))
    ]

-- If the three validators of DNS aliases report no error, then each DNS alias and each external
-- alias of the application names one of its environments, and a public component of it that is
-- enabled in that environment; so does the application alias, unless it is not set.
pub accepted_aliases-Target :
    (ra : Application)
    → dns_alias_validator ra ≡ []
    → dns_app_alias_validator ra ≡ []
    → external_dns_alias_validator ra ≡ []
    → All (λ a. Target ra a.component a.environment) ra.dns_alias
      × All (λ a. Target ra a.component a.environment) ra.dns_external_alias
      × (((is_empty ra.dns_app_alias.component && is_empty ra.dns_app_alias.environment) ≡ true)
          ⊎ Target ra ra.dns_app_alias.component ra.dns_app_alias.environment)
unfolding dns_alias_validator external_dns_alias_validator
accepted_aliases-Target ra h k l = (
  All-intro _ ra.dns_alias (λ a m.
      validate_target-Target ra a.component a.environment
        (concat_map-nil (λ b. validate_target ra b.component b.environment) ra.dns_alias h m)),
  All-intro _ ra.dns_external_alias
      (λ a m. external-Target ra a (concat_map-nil _ ra.dns_external_alias l m)),
  app_alias-Target ra k,
)
