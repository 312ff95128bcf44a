-- ===== src/Examples/Webhook.antt =====
-- An application with a public component that has volume mounts and a DNS alias.
use radix_operator.Prelude.{
  ℕ, String, true, false, not, ◌≡◌, refl, ◌⊎◌, Option, none, some, List, [], ◌∷◌, All, Memᴰ, join,
  if◌then◌else◌, ◌&&◌, ◌||◌, ◌==◌, leb, ltb, any, is_empty, ends_with, equal_fold,
}
use radix_operator.Scaling.Types.{or_one}
use radix_operator.Scaling.Merge.{merge_scaling}
use radix_operator.Scaling.Merge.Bounds.{is_fixed}
use radix_operator.Webhook.Types.{
  ResourceRequirements, EnvironmentConfig, RadixComponent, RadixJobComponent, Application,
}
use radix_operator.Webhook.VolumeMounts.{VolumeMount, BlobFuse2VolumeMount, validate_volume_mounts}
use radix_operator.Webhook.Mounts.{has_client_id, volume_mount_validator}
use radix_operator.Webhook.Mounts.Accepted.{Fit, accepted_mounts-Fit}
use radix_operator.Webhook.Dns.{
  dns_alias_validator, dns_app_alias_validator, external_dns_alias_validator,
}
use radix_operator.Webhook.Dns.Targets.{Target, accepted_aliases-Target}
use radix_operator.Webhook.Components.{component_validator}
use radix_operator.Webhook.Components.Accepted.{
  probes_fit, monitoring_fits, runtime_fits, ConfigFits, accepted_components,
}
use radix_operator.Webhook.Scaling.{horizontal_scaling_validator}
use radix_operator.Webhook.Scaling.Bounds.{accepted_scaling-bounds}
use radix_operator.Examples.Scaling as Scaling

abbrev blob : BlobFuse2VolumeMount
blob = record {
  protocol = "fuse2";
  container = "images";
  storage_account = "account1";
  use_azure_identity = some true;
  subscription_id = "subscription";
  resource_group = "group";
  prefetch_count = some 12;
}

abbrev storage : VolumeMount
storage = record {
  mount_type = "";
  name = "storage";
  path = "/storage";
  storage = "";
  blob_fuse2 = some blob;
  empty_dir = none;
}

abbrev scratch : VolumeMount
scratch = record {
  mount_type = "";
  name = "scratch";
  path = "/scratch";
  storage = "";
  blob_fuse2 = none;
  empty_dir = some (record { size_limit = 100 });
}

abbrev mounts : List VolumeMount
mounts = storage ∷ scratch ∷ []

-- A mount without a name is accepted behind one with a deprecated source.
abbrev deprecated : VolumeMount
deprecated = record storage { mount_type = "azure-blob"; storage = "images"; blob_fuse2 = none }

abbrev nameless : VolumeMount
nameless = record scratch { name = "" }

nameless_accepted : validate_volume_mounts (deprecated ∷ nameless ∷ []) false ≡ none
unfolding validate_volume_mounts
nameless_accepted = refl

abbrev parse_quantity : String → Option ℕ
parse_quantity text = if text == "100m" then some 100000000 else some 2000000000

abbrev resources : ResourceRequirements
resources = record { limits = ("cpu", "2") ∷ []; requests = ("cpu", "100m") ∷ [] }

abbrev config : EnvironmentConfig
config = record {
  environment = "prod";
  enabled = none;
  replicas = some 5;
  resources = resources;
  image_tag_name = "";
  runtime = none;
  health_checks = none;
  client_id = "";
  horizontal_scaling = some Scaling.environment;
  volume_mounts = [];
}

abbrev web : RadixComponent
web = record {
  name = "web";
  image = "";
  source_folder = ".";
  dockerfile_name = "";
  public = false;
  public_port = "http";
  ports = record { name = "http"; port = 8080 } ∷ [];
  enabled = none;
  replicas = some 2;
  resources = resources;
  monitoring = some true;
  monitoring_port_name = "";
  runtime = none;
  health_checks = some (record {
    liveness_probe = none;
    readiness_probe = some (record {
      http_get = true;
      tcp_socket = false;
      exec = false;
      grpc = false;
      success_threshold = 1;
    });
    startup_probe = none;
  });
  client_id = "id";
  horizontal_scaling = some Scaling.component;
  volume_mounts = mounts;
  environment_config = config ∷ [];
}

abbrev compute : RadixJobComponent
compute = record {
  name = "compute";
  client_id = "";
  volume_mounts = scratch ∷ [];
  environment_config =
      record { environment = "prod"; client_id = "id"; volume_mounts = mounts } ∷ [];
}

abbrev ra : Application
ra = record {
  name = "app";
  environments = "dev" ∷ "prod" ∷ [];
  components = web ∷ [];
  jobs = compute ∷ [];
  dns_alias = record { alias = "shop"; environment = "prod"; component = "web" } ∷ [];
  dns_app_alias = record { alias = "app"; environment = "dev"; component = "web" };
  dns_external_alias = record { alias = "shop.com"; environment = "prod"; component = "web" } ∷ [];
}

accepted_mounts-Fit_example :
    All
      (λ c.
        Fit (has_client_id c.client_id) c.volume_mounts
        × All
            (λ g. Fit (has_client_id c.client_id || has_client_id g.client_id) g.volume_mounts)
            c.environment_config)
      ra.components
    × All
        (λ c.
          Fit (has_client_id c.client_id) c.volume_mounts
          × All
              (λ g. Fit (has_client_id c.client_id || has_client_id g.client_id) g.volume_mounts)
              c.environment_config)
        ra.jobs
unfolding volume_mount_validator validate_volume_mounts join
accepted_mounts-Fit_example = accepted_mounts-Fit ra refl

accepted_aliases-Target_example :
    All (λ a. Target ra a.component a.environment) ra.dns_alias
    × All (λ a. Target ra a.component a.environment) ra.dns_external_alias
    × (((is_empty ra.dns_app_alias.component && is_empty ra.dns_app_alias.environment) ≡ true)
        ⊎ Target ra ra.dns_app_alias.component ra.dns_app_alias.environment)
unfolding dns_alias_validator dns_app_alias_validator external_dns_alias_validator join equal_fold
accepted_aliases-Target_example = accepted_aliases-Target ra refl refl refl

accepted_components_example :
    All
      (λ c.
        (ends_with c.name "-aux-oauth" ≡ false)
        × ((is_empty c.public_port || any (λ p. p.name == c.public_port) c.ports) ≡ true)
        × (monitoring_fits c ≡ true)
        × (runtime_fits c.runtime ≡ true)
        × (probes_fit c.health_checks ≡ true)
        × All (ConfigFits ra c) c.environment_config)
      ra.components
unfolding component_validator join
accepted_components_example = accepted_components parse_quantity ra refl

accepted_scaling-bounds_example :
    let merged = merge_scaling Scaling.component Scaling.environment in
    leb (or_one merged.min_replicas) merged.max_replicas ≡ not (is_fixed (some 5) 5 && ltb 2 5)
unfolding horizontal_scaling_validator join
accepted_scaling-bounds_example =
    accepted_scaling-bounds Scaling.is_cron ra web config Scaling.component Scaling.environment refl
      (Memᴰ.head refl) (Memᴰ.head refl) refl refl
