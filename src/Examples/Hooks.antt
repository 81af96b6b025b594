-- ===== src/Examples/Hooks.antt =====
-- The start of a job in a repository of an organization whose runner is registered by repository.
use octorun.Base.{[], ◌∷◌, some, none, pos, refl, List}
use octorun.Errors.{value, Answer}
use octorun.Resources.{idle, Runner}
use octorun.Hooks.World.{Repository, WorkflowJobEvent, HookCall, HookWorld}
use octorun.Hooks.Handle.{process_workflow_job_event}
use octorun.Hooks.Triggers.{Follows, process_workflow_job_event-Follows}
use octorun.Examples.Worlds.{machinery, runner_in}

abbrev repository : Repository
repository = record {
  owner_type = "Organization";
  owner_url = "https://github.com/octorun";
  url = "https://github.com/octorun/octorun";
}

abbrev pub job_started : WorkflowJobEvent
job_started = record {
  action = "in_progress";
  runner_id = pos 7;
  runner_name = "runner-a";
  runner_group = "Default";
  repo = some repository;
}

abbrev found_second : List HookCall → Answer (List Runner)
found_second (_ ∷ _ ∷ _) = value (runner_in idle ∷ [])
found_second _ = value []

abbrev pub hook_world : HookWorld
hook_world = record {
  mach = machinery;
  itoa = λ n. "7";
  encode = λ s. s;
  now = λ c. 0;
  listed = found_second;
  found = λ c. value (runner_in idle);
  patched = λ c. none;
}

process_workflow_job_event-Follows_example :
    Follows hook_world 0
      (process_workflow_job_event hook_world job_started (record { object = tt; calls = [] }))
process_workflow_job_event-Follows_example =
    process_workflow_job_event-Follows hook_world job_started repository [] refl
