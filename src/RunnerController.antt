-- ===== src/RunnerController.antt =====
-- controllers/runner_controller.go: the controller that keeps a Secret and a Pod for each Runner and
-- reports in its status what the pod and GitHub say.
pub mod World
pub mod Objects
pub mod Tokens
pub mod Status
pub mod Reconcile
pub mod Phases
pub mod Deletion
pub mod Refusal
pub mod Secrets
pub mod Labels
