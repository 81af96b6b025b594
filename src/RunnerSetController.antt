-- ===== src/RunnerSetController.antt =====
-- controllers/runnerset_controller.go: the controller that keeps the number of Runners that a
-- RunnerSet asks for, and rolls a new template out to them.
pub mod Find
pub mod Counts
pub mod Sync
pub mod Choice
pub mod Effects
pub mod Revisions
pub mod Reconcile
pub mod Frame
pub mod History
pub mod Current
pub mod Progress
pub mod Rounds
pub mod Moves
pub mod Scale
pub mod Detection
