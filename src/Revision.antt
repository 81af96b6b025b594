-- ===== src/Revision.antt =====
-- pkg/revision: the history of a RunnerSet's template, kept as ControllerRevision objects.
pub mod Data
pub mod World
pub mod Equality
pub mod Numbers
pub mod History
pub mod CreateRound
pub mod CreateLoop
pub mod Collisions
pub mod Truncate
pub mod Retention
pub mod Detection
