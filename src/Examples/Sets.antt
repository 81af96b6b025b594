-- ===== src/Examples/Sets.antt =====
-- The RunnerSet controller on two runners of a set that asks for one.
use octorun.Base.{◌≡◌, arith, [], none, refl, sort_stable, length, Bool, count_if}
use octorun.Errors.{err, error_response}
use octorun.Resources.{Runner}
use octorun.Revision.World.{SetWorld}
use octorun.RunnerSetController.Find.{find_runners}
use octorun.RunnerSetController.Counts.{IsCounted, find_runners-IsCounted}
use octorun.RunnerSetController.Sync.{runners_to_delete, sync_runners}
use octorun.RunnerSetController.Choice.{is_busy, runners_to_delete-is_busy}
use octorun.RunnerSetController.Effects.{deletions, Ends, sync_runners-deletes}
use octorun.Sortable.{less}
use octorun.Examples.SetWorlds.{set_world, set_session, runner_set, two_runners}

find_runners-IsCounted_example :
    IsCounted runner_set "r1"
      (find_runners set_world "r1" (set_session runner_set)).0
      (find_runners set_world "r1" (set_session runner_set)).1.object
find_runners-IsCounted_example = find_runners-IsCounted set_world "r1" (set_session runner_set)

-- The sorting of the two runners puts the idle one first.
sorted-kept :
    (p : Runner → Bool) → count_if p (set_world.sort less two_runners) ≡ count_if p two_runners
unfolding sort_stable less
sorted-kept p = ground arith

runners_to_delete-is_busy_example :
    (length (runners_to_delete set_world two_runners 1) ≡ 1)
    × (count_if is_busy (runners_to_delete set_world two_runners 1) ≡ 0)
unfolding sort_stable less
runners_to_delete-is_busy_example =
    runners_to_delete-is_busy set_world two_runners sorted-kept ((refl, tt), (tt, tt)) 1

sync_runners-deletes_example :
    ((sync_runners set_world two_runners "r1" (set_session runner_set)).1
      ≡ record (set_session runner_set) {
        calls = deletions (runners_to_delete set_world two_runners 1) [];
      })
    × Ends (sync_runners set_world two_runners "r1" (set_session runner_set)).0
sync_runners-deletes_example =
    sync_runners-deletes set_world two_runners "r1" 1 (set_session runner_set) refl (omega arith)

-- The API server refuses to make a runner.
abbrev refusing : SetWorld
refusing = record set_world { create_or_update_runner = λ f s. (err (error_response none), s) }
