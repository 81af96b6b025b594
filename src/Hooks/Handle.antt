-- ===== src/Hooks/Handle.antt =====
-- The index of runners, and the handling of an event.
use octorun.Go.{◌>>=◌, ◌>>◌, M, check, branch, pure, crash, attempt, ◌>>◌, observe, ask}
use octorun.Base.{
  if◌then◌else◌, [], ◌∷◌, some, none, ℤ, Option, ℕ, String, List, assign, ◌<>◌, int_eq, minus_one,
  str_eq,
}
use octorun.Errors.{error, value, Answer, ignore_not_found}
use octorun.Resources.{Runner, ObjectKey, annotation_runner_assigned_job_at, key_of}
use octorun.Webhooks.Admission.{Object, runner_object}
use octorun.Hooks.World.{
  Repository, WorkflowJobEvent, Event, workflow_job_event, other_event, HookCall, list_by_index,
  get_by_key, patch_hooked, HookWorld,
}

unfoldable pub runner_composite_index : HookWorld → String → String → String → String → String
runner_composite_index w name id group url =
    w.encode ("name:" <> (name <> (";id:" <> (id <> (";group:" <> (group <> (";url:" <> url)))))))

index_of_id : HookWorld → Runner → ℤ → List String
unfolding runner_composite_index
index_of_id w runner id =
    if int_eq id minus_one
    then []
    else runner_composite_index w runner.meta.name (w.itoa id) runner.spec.group runner.spec.url
      ∷ []

index_of : HookWorld → Runner → Option ℤ → List String
unfolding index_of_id
index_of w runner none = []
index_of w runner (some id) = index_of_id w runner id

unfoldable pub runner_composite_indexer : HookWorld → Object → List String
unfolding index_of
runner_composite_indexer w (runner_object runner) = index_of w runner runner.spec.id
runner_composite_indexer w _ = []

-- The annotation that the update event makes the controller react to.
abbrev pub assigned : HookWorld → ℕ → Runner → Runner
assigned w now runner = record runner {
  meta = record (runner.meta) {
    annotations =
        assign annotation_runner_assigned_job_at (w.mach.format_time now) runner.meta.annotations;
  };
}

-- The patch is deferred to the end of the method, which nothing can leave before.
unfoldable pub after_get : HookWorld → Answer Runner → M HookCall (Unit {0}) (Unit {0})
after_get w (error e) = check (ignore_not_found (some e))
after_get w (value runner) = do
  now ← observe w.now
  e ← ask (patch_hooked (assigned w now runner)) w.patched
  check e

unfoldable pub trigger_runner_reconciliation :
    HookWorld → ObjectKey → M HookCall (Unit {0}) (Unit {0})
unfolding after_get
trigger_runner_reconciliation w key = do a ← ask (get_by_key key) w.found; after_get w a

-- Exactly one runner must be found; an error of the trigger is only logged.
unfoldable pub on_runners : HookWorld → List Runner → M HookCall (Unit {0}) (Unit {0})
unfolding trigger_runner_reconciliation
on_runners w [] = pure tt
on_runners w (r ∷ []) = attempt (trigger_runner_reconciliation w (key_of r.meta)) >> pure tt
on_runners w (r ∷ q ∷ rest) = pure tt

unfoldable pub on_second : HookWorld → Answer (List Runner) → M HookCall (Unit {0}) (Unit {0})
unfolding on_runners
on_second w (error e) = pure tt
on_second w (value items) = on_runners w items

abbrev pub event_index : HookWorld → WorkflowJobEvent → String → String
event_index w event url =
    runner_composite_index w event.runner_name (w.itoa event.runner_id) event.runner_group url

-- The look-up by the URL of the repository.
unfoldable pub by_repository :
    HookWorld → WorkflowJobEvent → Repository → M HookCall (Unit {0}) (Unit {0})
unfolding on_second
by_repository w event repo = do
  a ← ask (list_by_index (event_index w event repo.url)) w.listed
  on_second w a

-- What is found by the URL of the organization, if anything, goes first.
unfoldable pub on_first :
    HookWorld
    → WorkflowJobEvent
    → Repository
    → Answer (List Runner)
    → M HookCall (Unit {0}) (Unit {0})
unfolding by_repository on_runners
on_first w event repo (error e) = pure tt
on_first w event repo (value []) = by_repository w event repo
on_first w event repo (value (r ∷ rest)) = on_runners w (r ∷ rest)

unfoldable pub by_organization :
    HookWorld → WorkflowJobEvent → Repository → M HookCall (Unit {0}) (Unit {0})
unfolding on_first
by_organization w event repo = do
  a ← ask (list_by_index (event_index w event repo.owner_url)) w.listed
  on_first w event repo a

-- `event.Repo.Owner` panics where the event has no repository.
unfoldable pub in_repo :
    HookWorld → WorkflowJobEvent → Option Repository → M HookCall (Unit {0}) (Unit {0})
unfolding by_organization by_repository
in_repo w event none = crash
in_repo w event (some repo) =
    branch (str_eq repo.owner_type "Organization") (by_organization w event repo)
      (by_repository w event repo)

unfoldable pub process_workflow_job_event :
    HookWorld → WorkflowJobEvent → M HookCall (Unit {0}) (Unit {0})
unfolding in_repo
process_workflow_job_event w event =
    branch (str_eq event.action "in_progress") (in_repo w event event.repo) (pure tt)

unfoldable pub handle : HookWorld → Event → M HookCall (Unit {0}) (Unit {0})
unfolding process_workflow_job_event
handle w (workflow_job_event event) = process_workflow_job_event w event
handle w other_event = pure tt
