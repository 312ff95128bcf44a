-- ===== src/Webhook/Components/Accepted.antt =====
-- The components that `componentValidator` of webhook/validation/radixapplication/validate.go
-- accepts.
use radix_operator.Prelude.{
  ℕ, String, some?, Bool, true, false, not, ◌&&◌, ◌||◌, ◌≡◌, refl, Option, none, some, [], ◌==◌,
  any, is_empty, ends_with, ltb, leb, report-nil, join-nil, concat_map-nil, All, All-intro, arith,
}
use radix_operator.Webhook.Types.{
  Runtime, Probe, HealthChecks, EnvironmentConfig, RadixComponent, Application,
}
use radix_operator.Webhook.Dns.{does_env_exist}
use radix_operator.Webhook.Components.{
  validate_component_or_job_name, validate_public_port, max_replica, min_replica, validate_replica,
  validate_component_environment, validate_component, component_validator, defined_probes,
  validate_probe, validate_health_checks, has_no_ports, is_set_true, success_threshold_of,
  validate_monitoring, validate_runtime,
}

-- At most this many replicas, if the number is set.
unfoldable pub at_most : ℕ → Option ℕ → Bool
at_most max none = true
at_most max (some n) = leb n max

-- Each probe that is set has at most one handler.
abbrev one_handler : Option Probe → Bool
one_handler none = true
one_handler (some p) = leb (defined_probes p) 1

-- The success threshold of a probe is not above 1.
abbrev success_threshold_fits : Option Probe → Bool
success_threshold_fits none = true
success_threshold_fits (some p) = leb p.success_threshold 1

-- Each probe has at most one handler, and the success threshold of the startup probe and of the
-- liveness probe is not above 1.
unfoldable pub probes_fit : Option HealthChecks → Bool
probes_fit none = true
probes_fit (some h) =
    one_handler h.startup_probe
    && one_handler h.readiness_probe
    && one_handler h.liveness_probe
    && success_threshold_fits h.startup_probe
    && success_threshold_fits h.liveness_probe

-- With monitoring there are ports, and the port that it names is one of them.
unfoldable pub monitoring_fits : RadixComponent → Bool
monitoring_fits c =
    not (is_set_true c.monitoring)
    || (not (has_no_ports c.ports)
        && (is_empty c.monitoring_port_name || any (λ p. c.monitoring_port_name == p.name) c.ports))

-- The architecture and the type of the node are not both set.
unfoldable pub runtime_fits : Option Runtime → Bool
runtime_fits none = true
runtime_fits (some r) = is_empty r.architecture || not (some? r.node_type)

validate_replica-at_most : (n : Option ℕ) → validate_replica n ≡ [] → at_most max_replica n ≡ true
unfolding validate_replica at_most
validate_replica-at_most none h = refl
validate_replica-at_most (some n) h =
    let e = report-nil (ltb max_replica n || ltb n min_replica) _ h in ground arith

validate_probe-one_handler : (p : Option Probe) → validate_probe p ≡ [] → one_handler p ≡ true
unfolding validate_probe
validate_probe-one_handler none h = refl
validate_probe-one_handler (some p) h =
    let e = report-nil (ltb 1 (defined_probes p)) _ h in ground arith

success_threshold_of-fits :
    (p : Option Probe) → success_threshold_of p ≡ [] → success_threshold_fits p ≡ true
success_threshold_of-fits none h = refl
success_threshold_of-fits (some p) h =
    let e = report-nil (ltb 1 p.success_threshold) _ h in ground arith

validate_health_checks-probes_fit :
    (h : Option HealthChecks) → validate_health_checks h ≡ [] → probes_fit h ≡ true
unfolding validate_health_checks probes_fit
validate_health_checks-probes_fit none e = refl
validate_health_checks-probes_fit (some h) e =
    let checks = join-nil _ e in
    rw
      (
        validate_probe-one_handler h.startup_probe checks.0,
        validate_probe-one_handler h.readiness_probe checks.1.0,
        validate_probe-one_handler h.liveness_probe checks.1.1.0,
        success_threshold_of-fits h.startup_probe checks.1.1.1.0,
        success_threshold_of-fits h.liveness_probe checks.1.1.1.1.0,
      )
      refl

validate_monitoring-fits :
    (c : RadixComponent)
    → validate_monitoring c.monitoring c.monitoring_port_name c.ports ≡ []
    → monitoring_fits c ≡ true
unfolding validate_monitoring monitoring_fits
validate_monitoring-fits c h = ground arith

validate_runtime-fits : (r : Option Runtime) → validate_runtime r ≡ [] → runtime_fits r ≡ true
unfolding validate_runtime runtime_fits
validate_runtime-fits none h = refl
validate_runtime-fits (some r) h =
    let e = report-nil (not (is_empty r.architecture) && some? r.node_type) _ h in ground arith

-- What an environment of an accepted component has.
pub record ConfigFits (ra : Application) (c : RadixComponent) (config : EnvironmentConfig)
    : Type 0 where
  pub env_exists : does_env_exist ra config.environment ≡ true
  pub component_replicas : at_most max_replica c.replicas ≡ true
  pub environment_replicas : at_most max_replica config.replicas ≡ true
  pub runtime : runtime_fits config.runtime ≡ true
  pub probes : probes_fit config.health_checks ≡ true

environment-ConfigFits :
    (parse_quantity : String → Option ℕ) (ra : Application) (c : RadixComponent)
    (config : EnvironmentConfig)
    → validate_component_environment parse_quantity ra c config ≡ []
    → ConfigFits ra c config
unfolding validate_component_environment
environment-ConfigFits parse ra c config h =
    let checks = join-nil _ h in
    let e = report-nil (not (does_env_exist ra config.environment)) _ checks.0 in
    record {
      env_exists = ground arith;
      component_replicas = validate_replica-at_most c.replicas checks.1.0;
      environment_replicas = validate_replica-at_most config.replicas checks.1.1.0;
      runtime = validate_runtime-fits config.runtime checks.1.1.1.1.0;
      probes = validate_health_checks-probes_fit config.health_checks checks.1.1.1.1.1.0;
    }

-- If `componentValidator` reports no error, then no component has the reserved suffix, the public
-- port of a component is one of its ports, and so is the port of its monitoring; its runtime does
-- not set both the architecture and the type of the node; its probes have at most one handler, and
-- the startup and the liveness probe a success threshold of at most 1. Each environment that it
-- configures is one of the application, its runtime and its probes there obey the same rules, and
-- then both the configuration and the component set at most 64 replicas; the replicas of a
-- component that configures no environment are not bounded.
pub accepted_components :
    (parse_quantity : String → Option ℕ) (ra : Application)
    → component_validator parse_quantity ra ≡ []
    → All
        (λ c.
          (ends_with c.name "-aux-oauth" ≡ false)
          × ((is_empty c.public_port || any (λ p. p.name == c.public_port) c.ports) ≡ true)
          × (monitoring_fits c ≡ true)
          × (runtime_fits c.runtime ≡ true)
          × (probes_fit c.health_checks ≡ true)
          × All (ConfigFits ra c) c.environment_config)
        ra.components
unfolding component_validator validate_component validate_component_or_job_name validate_public_port
accepted_components parse ra h = All-intro _ ra.components (λ c m.
    let checks = join-nil _ (concat_map-nil (validate_component parse ra) ra.components h m) in
    let public_port = checks.1.0 in
    (
      report-nil (ends_with c.name "-aux-oauth") _ checks.0,
      ground arith,
      validate_monitoring-fits c checks.1.1.1.0,
      validate_runtime-fits c.runtime checks.1.1.1.1.0,
      validate_health_checks-probes_fit c.health_checks checks.1.1.1.1.1.0,
      All-intro (ConfigFits ra c) c.environment_config (λ config i.
          environment-ConfigFits parse ra c config (
            concat_map-nil (validate_component_environment parse ra c) c.environment_config
              checks.1.1.1.1.1.1.0 i)),
    ))
