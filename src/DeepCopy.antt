-- ===== src/DeepCopy.antt =====
-- The generated deep copies of api/v1alpha2 and api/v1alpha1, with the memory that they allocate.
pub mod Memory
pub mod Deep
pub mod Library
pub mod V1alpha2
pub mod Separate
pub mod V1alpha1
