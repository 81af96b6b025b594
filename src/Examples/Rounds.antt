-- ===== src/Examples/Rounds.antt =====
-- A round of the RunnerSet controller after its template has changed: the idle runner of the old
-- revision is discarded, the active one stays, and the current revision waits for it.
use octorun.Revision.Data.{
  object_patch, on_encoded, on_unmarshalled, on_spec, on_template, as_object, find_field, hash,
  put_field,
}
use octorun.RunnerSetController.Scale.{IsScaled, sync_runners-IsScaled}
use octorun.RunnerSetController.Moves.{Grants}
use octorun.Revision.Truncate.{excluded, histories, truncate, truncate_history}
use octorun.Revision.Equality.{label_hash}
use octorun.RunnerSetController.Sync.{sync_runners, create_many, create_one}
use octorun.RunnerSetController.Find.{find_runners, visit_all, visit, adopt_runner}
use octorun.RunnerSetController.Revisions.{runner_set_revisioner}
use octorun.Revision.History.{make_history, create_loop, create_round}
use octorun.RunnerSetController.Reconcile.{reconcile_set}
use octorun.Examples.SetWorlds.{set_world, runner_set, revision, set_session, two_runners, flat}
use octorun.Resources.{ControllerRevision, RunnerSet}
use octorun.Revision.World.{SetWorld}
use octorun.RunnerSetController.Revisions.{list_revision, next_revision, runner_set_revisioner}
use octorun.Revision.Truncate.{histories}
use octorun.RunnerSetController.Rounds.{IsRound, reconcile_set-IsRound}
use octorun.Base.{some, true, refl, [], ◌∷◌, pos, sort_stable, find_key, length_laws, arith}
use octorun.Errors.{value}

abbrev owned_revision : ControllerRevision
owned_revision = record (revision "r1" (pos 1)) {
  meta = record ((revision "r1" (pos 1)).meta) {
    owner_references =
        record { kind = "RunnerSet"; name = "set-a"; uid = "s1"; is_controller = true } ∷ [];
  };
}

abbrev rolling_world : SetWorld
rolling_world = record set_world { listed_revisions = λ c. value (owned_revision ∷ []) }

reconcile_set-IsRound_example :
    IsRound 2 rolling_world
      (set_session runner_set)
      (reconcile_set 2 rolling_world (set_session runner_set)).1.object
unfolding reconcile_set make_history create_loop create_round list_revision next_revision
    runner_set_revisioner find_runners visit_all visit adopt_runner sync_runners create_many
    create_one label_hash excluded histories truncate truncate_history sort_stable find_key
    object_patch on_encoded on_unmarshalled on_spec on_template as_object find_field hash put_field
    flat
reconcile_set-IsRound_example =
    reconcile_set-IsRound 2 rolling_world (set_session runner_set)
      (reconcile_set 2 rolling_world (set_session runner_set)).1 refl

granting : Grants set_world
granting = record {
  creates = λ f s t n h. (ground (arith, h), ground (arith, h), ground (arith, h));
  owners = λ owner m.
      record { kind = "Runner"; name = owner.name; uid = owner.uid; is_controller = true } ∷ [];
  owns = λ owner m e. refl;
  deletes = λ c. refl;
  sorts = λ rs. simp length_laws;
}

abbrev wanting_three : RunnerSet
wanting_three = record runner_set { spec = record (runner_set.spec) { runners = some (pos 3) } }

sync_runners-IsScaled_example :
    IsScaled "r1" 2 3
      (set_session wanting_three)
      (sync_runners set_world two_runners "r1" (set_session wanting_three))
sync_runners-IsScaled_example =
    sync_runners-IsScaled set_world granting two_runners "r1" 3 (set_session wanting_three) refl
