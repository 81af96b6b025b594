-- ===== src/DeepCopy/V1alpha2.antt =====
-- The deep copies of api/v1alpha2.
pub mod Types
pub mod Copies
pub mod Views
pub mod Runners
pub mod RunnerSets
pub mod Objects
