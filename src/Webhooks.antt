-- ===== src/Webhooks.antt =====
-- webhooks/: the admission of Runners and RunnerSets, which fills in defaults and refuses what is
-- not well-formed. `SetupWithManager`, which registers the methods with the manager, is in Setup.
pub mod Url
pub mod Admission
pub mod Runners
pub mod RunnerSets
pub mod Defaults
pub mod Immutable
pub mod Selectors
