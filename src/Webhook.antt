-- ===== src/Webhook.antt =====
-- The validation of an application when it is written.
pub mod VolumeMounts
pub mod Types
pub mod Dns
pub mod Components
pub mod Scaling
pub mod Mounts
pub mod KeyVaults
pub mod Batches
pub mod Secrets
