-- ===== src/Controllers.antt =====
-- The controllers of the operator.
pub mod Workers
