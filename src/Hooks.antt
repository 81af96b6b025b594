-- ===== src/Hooks.antt =====
-- hooks/github_hook.go: an event of GitHub that a job has started makes the controller look at the
-- runner that runs it. `SetupWithManager`, which registers the index and the handler, is in Setup.
pub mod World
pub mod Handle
pub mod Triggers
