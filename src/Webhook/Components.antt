-- ===== src/Webhook/Components.antt =====
-- `componentValidator` and what it calls, of webhook/validation/radixapplication/validate.go. The
-- errors and the warnings of a function are two functions here. `parse_quantity` stands for
-- `resource.ParseQuantity` of Kubernetes: a quantity that is not negative, in units of 10^-9.
pub mod Accepted
pub mod Resources
use radix_operator.Prelude.{
  ℕ, String, Bool, true, false, not, ◌&&◌, ◌||◌, ◌+◌, Option, none, some, List, [], ◌∷◌, ◌==◌, any,
  find_first, is_empty, some?, ends_with, ltb, nat_beq, length, report, concat_map, join,
  if◌then◌else◌,
}
use radix_operator.Webhook.Types.{
  ComponentPort, ResourceRequirements, Runtime, Probe, HealthChecks, EnvironmentConfig,
  RadixComponent, Application, ValidationError, environment_referenced_by_component_does_not_exist,
  component_name_reserved_suffix, public_port_not_found, monitoring_no_ports_defined,
  monitoring_named_port_not_found, runtime_architecture_with_node_type, invalid_number_of_replicas,
  success_threshold_must_be_one, invalid_health_check_probe, invalid_resource_format,
  cpu_resource_requirement_format, invalid_resource_type, requested_resource_exceeds_limit, Warning,
  public_image_with_source_or_dockerfile, memory_resource_below_recommended_minimum,
  component_with_dynamic_tag_requires_image_tag,
}
use radix_operator.Webhook.Dns.{does_env_exist}

unfoldable pub validate_component_or_job_name : String → List ValidationError
unfolding ends_with
validate_component_or_job_name name =
    report (ends_with name "-aux-oauth") component_name_reserved_suffix

unfoldable pub validate_public_port : RadixComponent → List ValidationError
validate_public_port c =
    if is_empty c.public_port
    then []
    else report (not (any (λ p. p.name == c.public_port) c.ports)) public_port_not_found

abbrev pub has_no_ports : List ComponentPort → Bool
has_no_ports [] = true
has_no_ports (p ∷ ps) = false

abbrev pub is_set_true : Option Bool → Bool
is_set_true none = false
is_set_true (some b) = b

unfoldable pub validate_monitoring :
    Option Bool → String → List ComponentPort → List ValidationError
validate_monitoring monitoring port_name ports =
    if not (is_set_true monitoring)
    then []
    else if has_no_ports ports
    then monitoring_no_ports_defined ∷ []
    else if is_empty port_name
    then []
    else report (not (any (λ p. port_name == p.name) ports)) monitoring_named_port_not_found

unfoldable pub validate_runtime : Option Runtime → List ValidationError
validate_runtime none = []
validate_runtime (some r) =
    report (not (is_empty r.architecture) && some? r.node_type) runtime_architecture_with_node_type

abbrev pub max_replica : ℕ
max_replica = 64

abbrev pub min_replica : ℕ
min_replica = 0

unfoldable pub validate_replica : Option ℕ → List ValidationError
validate_replica none = []
validate_replica (some n) =
    report (ltb max_replica n || ltb n min_replica) invalid_number_of_replicas

abbrev one_if : Bool → ℕ
one_if true = 1
one_if false = 0

-- The number of handlers that are set.
unfoldable pub defined_probes : Probe → ℕ
defined_probes p = one_if p.http_get + one_if p.tcp_socket + one_if p.exec + one_if p.grpc

unfoldable pub validate_probe : Option Probe → List ValidationError
unfolding defined_probes
validate_probe none = []
validate_probe (some p) = report (ltb 1 (defined_probes p)) invalid_health_check_probe

-- The success threshold of a startup or liveness probe.
abbrev pub success_threshold_of : Option Probe → List ValidationError
success_threshold_of none = []
success_threshold_of (some p) = report (ltb 1 p.success_threshold) success_threshold_must_be_one

unfoldable pub validate_health_checks : Option HealthChecks → List ValidationError
unfolding validate_probe
validate_health_checks none = []
validate_health_checks (some h) = join (
    validate_probe h.startup_probe
    ∷ validate_probe h.readiness_probe
    ∷ validate_probe h.liveness_probe
    ∷ success_threshold_of h.startup_probe
    ∷ success_threshold_of h.liveness_probe
    ∷ [])

unfoldable pub environment_has_dynamic_tagging_but_image_lacks_tag : String → String → Bool
unfolding ends_with
environment_has_dynamic_tagging_but_image_lacks_tag tag image =
    not (is_empty tag) && (is_empty image || not (ends_with image "{imageTagName}"))

-- 20M and 1k
abbrev minimum_memory_requirement : ℕ
minimum_memory_requirement = 20000000000000000

abbrev pub maximum_cpu : ℕ
maximum_cpu = 1000000000000

unfoldable pub is_valid_resource_type : String → Bool
is_valid_resource_type name = name == "memory" || name == "cpu"

module _ (parse_quantity : String → Option ℕ) where
  -- A quantity that cannot be parsed is zero.
  unfoldable pub quantity : Option ℕ → ℕ
  quantity none = 0
  quantity (some q) = q

  -- The entry of `limitQuantities`.
  unfoldable pub limit_quantity : String → List (String × String) → Option (String × String)
  limit_quantity name = find_first (λ l. not (is_empty l.1) && l.0 == name)

  exceeds : ℕ → Option (String × String) → Bool
  unfolding quantity
  exceeds q none = false
  exceeds q (some l) = ltb (quantity (parse_quantity l.1)) q

  validate_limit : String × String → List ValidationError
  unfolding quantity is_valid_resource_type
  validate_limit l =
      if is_empty l.1
      then []
      else join (
          report (not (some? (parse_quantity l.1))) invalid_resource_format
          ∷ report (l.0 == "cpu" && ltb maximum_cpu (quantity (parse_quantity l.1)))
              cpu_resource_requirement_format
          ∷ report (not (is_valid_resource_type l.0)) invalid_resource_type
          ∷ [])

  unfoldable pub validate_request : List (String × String) → String × String → List ValidationError
  unfolding quantity limit_quantity exceeds is_valid_resource_type
  validate_request limits r =
      let q = quantity (parse_quantity r.1) in
      join (
        report (not (some? (parse_quantity r.1))) invalid_resource_format
        ∷ report (exceeds q (limit_quantity r.0 limits)) requested_resource_exceeds_limit
        ∷ report (r.0 == "cpu" && ltb maximum_cpu q) cpu_resource_requirement_format
        ∷ report (not (is_valid_resource_type r.0)) invalid_resource_type
        ∷ [])

  -- The errors of `validateResourceRequirements`.
  unfoldable pub validate_resource_requirements : ResourceRequirements → List ValidationError
  unfolding validate_limit validate_request
  validate_resource_requirements r =
      join (
        concat_map validate_limit r.limits ∷ concat_map (validate_request r.limits) r.requests ∷ [])

  below_minimum : String → String → Bool
  unfolding quantity
  below_minimum name value =
      name == "memory" && ltb (quantity (parse_quantity value)) minimum_memory_requirement

  -- Its warnings.
  resource_warnings : ResourceRequirements → List Warning
  unfolding below_minimum
  resource_warnings r = join (
      concat_map
        (λ l.
          report (not (is_empty l.1) && below_minimum l.0 l.1)
            memory_resource_below_recommended_minimum)
        r.limits
      ∷ concat_map (λ q. report (below_minimum q.0 q.1) memory_resource_below_recommended_minimum)
          r.requests
      ∷ [])

  unfoldable pub validate_component_environment :
      Application → RadixComponent → EnvironmentConfig → List ValidationError
  unfolding does_env_exist validate_replica validate_resource_requirements validate_runtime
      validate_health_checks
  validate_component_environment ra c config = join (
      report (not (does_env_exist ra config.environment))
        environment_referenced_by_component_does_not_exist
      ∷ validate_replica c.replicas
      ∷ validate_replica config.replicas
      ∷ validate_resource_requirements config.resources
      ∷ validate_runtime config.runtime
      ∷ validate_health_checks config.health_checks
      ∷ [])

  environment_warnings : RadixComponent → EnvironmentConfig → List Warning
  unfolding resource_warnings environment_has_dynamic_tagging_but_image_lacks_tag
  environment_warnings c config = join (
      resource_warnings config.resources
      ∷ report (environment_has_dynamic_tagging_but_image_lacks_tag config.image_tag_name c.image)
          component_with_dynamic_tag_requires_image_tag
      ∷ [])

  -- The body of the loop of `componentValidator`.
  unfoldable pub validate_component : Application → RadixComponent → List ValidationError
  unfolding validate_component_or_job_name validate_public_port validate_resource_requirements
      validate_monitoring validate_runtime validate_health_checks validate_component_environment
  validate_component ra c = join (
      validate_component_or_job_name c.name
      ∷ validate_public_port c
      ∷ validate_resource_requirements c.resources
      ∷ validate_monitoring c.monitoring c.monitoring_port_name c.ports
      ∷ validate_runtime c.runtime
      ∷ validate_health_checks c.health_checks
      ∷ concat_map (validate_component_environment ra c) c.environment_config
      ∷ [])

  unfoldable pub component_validator : Application → List ValidationError
  unfolding validate_component
  component_validator ra = concat_map (validate_component ra) ra.components

  unfoldable pub component_validator_warnings : Application → List Warning
  unfolding resource_warnings environment_warnings
  component_validator_warnings ra =
      concat_map
        (λ c. join (
          report
            (not (is_empty c.image)
              && (not (is_empty c.source_folder) || not (is_empty c.dockerfile_name)))
            public_image_with_source_or_dockerfile
          ∷ resource_warnings c.resources
          ∷ concat_map (environment_warnings c) c.environment_config
          ∷ []))
        ra.components
