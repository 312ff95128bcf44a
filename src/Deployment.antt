-- ===== src/Deployment.antt =====
-- The RadixDeployments of an environment, pkg/apis/deployment.
pub mod Components
pub mod Types
pub mod Activation
pub mod History
