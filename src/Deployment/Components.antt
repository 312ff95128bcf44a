-- ===== src/Deployment/Components.antt =====
-- The components of a new deployment: GetRadixComponentsForEnv and what it calls of
-- pkg/apis/deployment/radixcomponent.go and radixcommoncomponent.go. The merges by mergo of the
-- authentication, the identity and the volume mounts are not modelled: `merge_error` and
-- `volume_mounts_error` are their errors, and the records leave these fields out. A Go map is a
-- list of its entries.
pub mod Types
pub mod Settings
pub mod KeyVaults
pub mod Assembly
pub mod Variables
pub mod Preserved
