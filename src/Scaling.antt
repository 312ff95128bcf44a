-- ===== src/Scaling.antt =====
-- The horizontal scaling of a component.
pub mod Types
pub mod Validation
pub mod Accepted
pub mod Merge
pub mod Replicas
