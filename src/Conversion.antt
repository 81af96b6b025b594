-- ===== src/Conversion.antt =====
-- api/v1alpha1: the older version of Runner and RunnerSet, and its conversion to and from the
-- version that is stored, v1alpha2.
pub mod Types
pub mod Zero
mod Up
mod Down
mod Laws
mod Items
pub mod Registration
pub mod Complete
pub mod Lost
