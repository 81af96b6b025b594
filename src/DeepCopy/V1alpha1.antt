-- ===== src/DeepCopy/V1alpha1.antt =====
-- The deep copies of api/v1alpha1.
pub mod Types
pub mod Copies
pub mod Views
pub mod Runners
pub mod RunnerSets
pub mod Objects
